-- ===== src/Header/Flags.antt =====
-- SocketMetadata.h: the flags of the state word, as digits of the number.
use Prim.Native.Nat.{bit_and, bit_or}
use uvent.Common.{
  ℕ, ◌+◌, ◌-◌, ◌*◌, ◌/◌, ◌%◌, ◌^◌, ◌<◌, ◌≡◌, ◌≢◌, refl, ap, ◌∙◌, true, false, not, ◌==◌, arith,
  ==_iff, ne→==-false, ==-false→ne, Bool-cases, inl, inr, Bool, false,
}
use uvent.Common.Bits.{bit_and_mask}
use uvent.Common.Digits.{set_digit, test_digit, clear_digit, bit_and_field, bit_and_digit}
use uvent.Header.{busy_mask, complement, try_mark_busy, clear_busy, is_busy_now}

-- Flag `k` of a word.
abbrev pub flag : ℕ → ℕ → ℕ
flag k s = s / 2 ^ k % 2

-- The flags that forbid a worker to take the socket.
abbrev guards : ℕ → ℕ
guards s = flag 63 s + flag 62 s + flag 59 s

-- `x & 25` on five digits.
five_digits : (q : ℕ) → q < 32 → bit_and q 25 ≡ q / 16 % 2 * 16 + q / 8 % 2 * 8 + q % 2
five_digits q h = omega (
  arith,
  bit_and_digit q 25,
  bit_and_digit (q / 2) 12,
  bit_and_digit (q / 2 / 2) 6,
  bit_and_digit (q / 2 / 2 / 2) 3,
  bit_and_mask 1 (q / 2 / 2 / 2 / 2),
)

guard_mask :
    (s : ℕ)
    → s < 2 ^ 64
    → bit_and s (25 * 2 ^ 59) ≡ (flag 63 s * 16 + flag 62 s * 8 + flag 59 s) * 2 ^ 59
guard_mask s h = omega (arith, bit_and_field 59 s 25, five_digits (s / 2 ^ 59) (omega arith))

-- The mark on a word that is not busy adds its digit, and clearing it takes the digit away.
marked_word : (s : ℕ) → s < 2 ^ 64 → flag 62 s ≡ 0 → bit_or s busy_mask ≡ s + 2 ^ 62
marked_word s h e = omega (arith, set_digit 62 s, e)

cleared_word : (s : ℕ) → s < 2 ^ 64 → bit_and s (complement busy_mask) ≡ s - flag 62 s * 2 ^ 62
cleared_word s h = clear_digit 1 62 s (omega arith)

busy_digit : (s : ℕ) → (bit_and s busy_mask == 0) ≡ (flag 62 s == 0)
busy_digit s = ap (λ x. x == 0) (test_digit 62 s) ∙ ground arith

try_mark_busy-Locks :
    (s : ℕ)
    → s < 2 ^ 64
    → guards s ≡ 0
    → ((try_mark_busy s).0 ≡ true)
      × (is_busy_now (try_mark_busy s).1 ≡ true)
      × (clear_busy (try_mark_busy s).1 ≡ s)
unfolding try_mark_busy clear_busy is_busy_now
try_mark_busy-Locks s h e =
    let pass : (bit_and s (25 * 2 ^ 59) == 0) ≡ true =
      (==_iff (bit_and s (25 * 2 ^ 59)) 0).1 (omega (arith, guard_mask s h, e)) in
    let word = marked_word s h (omega (arith, e)) in
    let busy : (flag 62 (s + 2 ^ 62) == 0) ≡ false =
      ne→==-false (flag 62 (s + 2 ^ 62)) 0 (λ z. absurd (omega (arith, z, e, h))) in
    let large : s + 2 ^ 62 < 2 ^ 64 = omega (arith, h, e) in
    rw (pass, word)
      (
        refl,
        ap not (busy_digit (s + 2 ^ 62) ∙ busy),
        cleared_word (s + 2 ^ 62) large ∙ omega (arith, e, large),
      )

try_mark_busy-Fails : (s : ℕ) → s < 2 ^ 64 → guards s ≢ 0 → try_mark_busy s ≡ (false, s)
unfolding try_mark_busy
try_mark_busy-Fails s h d =
    let stop : (bit_and s (25 * 2 ^ 59) == 0) ≡ false =
      ne→==-false (bit_and s (25 * 2 ^ 59)) 0 (λ z. d (omega (arith, guard_mask s h, z))) in
    rw (stop) refl

-- What `try_mark_busy` does to a word of which it is known whether it is guarded.
abbrev pub IsMarked : Bool → ℕ → Bool × ℕ → Type 0
IsMarked true s r = r ≡ (false, s)
IsMarked false s r = (r.0 ≡ true) × (is_busy_now r.1 ≡ true) × (clear_busy r.1 ≡ s)

-- `try_mark_busy` on a word of 64 bits: if the word is closed, disconnected or busy, by the digits of
-- weight `2^63`, `2^59` and `2^62`, it fails and changes nothing; if not, it succeeds, the new word is
-- busy, and `clear_busy` gives the old one back.
pub try_mark_busy-IsMarked :
    (s : ℕ)
    → s < 2 ^ 64
    → IsMarked (not (flag 63 s + flag 62 s + flag 59 s == 0)) s (try_mark_busy s)
try_mark_busy-IsMarked s h = elim (Bool-cases (guards s == 0)) [
  | inl z ↦ rw (z) (try_mark_busy-Locks s h ((==_iff (guards s) 0).0 z))
  | inr z ↦ rw (z) (try_mark_busy-Fails s h (==-false→ne (guards s) 0 z))
]
