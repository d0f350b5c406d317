-- ===== src/Tagged/Pack.antt =====
-- TaggedPtr.h: what a word of a pointer and a tag says.
use Prim.Native.Nat.{bit_and, bit_or, bit_xor}
use uvent.Common.{
  ℕ, zero, suc, ◌+◌, ◌-◌, ◌*◌, ◌/◌, ◌%◌, ◌^◌, ◌≤◌, ◌<◌, ◌≡◌, refl, sym, ap, ◌∙◌, ◌⊎◌,
  below_or_above, inl, inr, arith,
}
use uvent.Common.Bits.{u64, bit_and_mask}
use uvent.Common.Digits.{bit_or_field, bit_xor_shift, zero-bit_or}
use uvent.Tagged.{tag_mask, pack, unpack_ptr, unpack_tag}

-- An address in canonical form: the bits from 47 on are equal.
abbrev pub IsCanonical : ℕ → Type 0
IsCanonical p = (p < 2 ^ 47) ⊎ ((2 ^ 64 - 2 ^ 47 ≤ p) × (p < 2 ^ 64))

pub pack_sum : (p t : ℕ) → pack p t ≡ t % 2 ^ 16 * 2 ^ 48 + p % 2 ^ 48
unfolding pack
pack_sum p t =
    let zero_upper : p % 2 ^ 48 / 2 ^ 48 ≡ 0 = omega arith in
    let upper : bit_or (p % 2 ^ 48 / 2 ^ 48) (t % 2 ^ 16) ≡ t % 2 ^ 16 =
      ap (λ x. bit_or x (t % 2 ^ 16)) zero_upper
      ∙ zero-bit_or (t % 2 ^ 16) (t % 2 ^ 16) (omega arith) in
    ap (λ x. bit_or x (bit_and t tag_mask * 2 ^ 48)) (bit_and_mask 48 p)
    ∙ ap (λ x. bit_or (p % 2 ^ 48) (x * 2 ^ 48)) (bit_and_mask 16 t)
    ∙ bit_or_field 48 (p % 2 ^ 48) (t % 2 ^ 16)
    ∙ ap (λ x. x * 2 ^ 48 + p % 2 ^ 48 % 2 ^ 48) upper
    ∙ omega arith

flip_one : (q : ℕ) → q < 2 → bit_xor q 1 ≡ 1 - q
flip_one zero h = refl
flip_one (suc zero) h = refl
flip_one (suc (suc q)) h = absurd (omega (arith, h))

flip_sign : (r : ℕ) → r < 2 ^ 48 → bit_xor r (2 ^ 47) ≡ (r + 2 ^ 47) % 2 ^ 48
flip_sign r h =
    let parts : r / 2 ^ 47 * 2 ^ 47 + r % 2 ^ 47 ≡ r = omega arith in
    let upper : bit_xor (r / 2 ^ 47) 1 ≡ 1 - r / 2 ^ 47 =
      flip_one (r / 2 ^ 47) (omega (arith, h)) in
    ap (λ x. bit_xor x (2 ^ 47)) (sym parts)
    ∙ bit_xor_shift 47 (r / 2 ^ 47) (r % 2 ^ 47) 1 (omega arith)
    ∙ ap (λ x. x * 2 ^ 47 + r % 2 ^ 47) upper
    ∙ omega (arith, h)

-- The address that the low digits of a word stand for, with the sign of digit 47.
pub extended : (v : ℕ) → unpack_ptr v ≡ u64 ((v % 2 ^ 48 + 2 ^ 47) % 2 ^ 48 + 2 ^ 64 - 2 ^ 47)
unfolding unpack_ptr
extended v =
    ap (λ r. u64 (bit_xor r (2 ^ 47) + 2 ^ 64 - 2 ^ 47)) (bit_and_mask 48 v)
    ∙ ap (λ r. u64 (r + 2 ^ 64 - 2 ^ 47)) (flip_sign (v % 2 ^ 48) (omega arith))

pub tagged : (v : ℕ) → unpack_tag v ≡ v / 2 ^ 48 % 2 ^ 16
unfolding unpack_tag
tagged v = bit_and_mask 16 (v / 2 ^ 48)

-- A word gives back the address in canonical form and the tag of 16 bits from which it was packed.
pub unpack-pack :
    (p t : ℕ)
    → IsCanonical p
    → t < 2 ^ 16
    → (unpack_ptr (pack p t) ≡ p) × (unpack_tag (pack p t) ≡ t)
unpack-pack p t (inl h) k =
    omega (arith, extended (pack p t), tagged (pack p t), pack_sum p t, h, k)
unpack-pack p t (inr h) k =
    omega (arith, extended (pack p t), tagged (pack p t), pack_sum p t, h.0, h.1, k)

-- A word of 64 bits is packed again from what it gives.
pub pack-unpack : (v : ℕ) → v < 2 ^ 64 → pack (unpack_ptr v) (unpack_tag v) ≡ v
pack-unpack v h = omega (arith, pack_sum (unpack_ptr v) (unpack_tag v), extended v, tagged v, h)

pub unpack_ptr-IsCanonical : (v : ℕ) → IsCanonical (unpack_ptr v)
unpack_ptr-IsCanonical v = elim (below_or_above (v % 2 ^ 48) (2 ^ 47)) [
  | inl low ↦ inl (omega (arith, extended v, low))
  | inr high ↦ inr (omega (arith, extended v, high))
]
