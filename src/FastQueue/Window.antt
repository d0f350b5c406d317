-- ===== src/FastQueue/Window.antt =====
-- The elements of the queue as a list, and how its buffer is indexed.
use native.Mathlib.Nat.{pow-suc, mul_assoc, div-add-mod, mod-lt}
use uvent.Common.{
  ℕ, zero, suc, ◌+◌, ◌-◌, ◌*◌, ◌/◌, ◌%◌, ◌^◌, ◌≤◌, ◌<◌, ◌≡◌, refl, sym, ap, ap₂, subst, ◌∙◌, List,
  [], ◌∷◌, ◌++◌, arith, length,
}
use uvent.Common.Bits.{u64, mod_of_block, pow-pos}

add_step : (i n : ℕ) → i + 1 + n ≡ i + suc n
add_step i n = omega arith

shift_step : (d i : ℕ) → d + i + 1 ≡ d + (i + 1)
shift_step d i = omega arith

-- The values of a function from `i` on, `n` of them.
module _ {ℓ} {A : Type ℓ} where
  abbrev pub tabulate : (ℕ → A) → ℕ → ℕ → List A
  tabulate f i zero = []
  tabulate f i (suc n) = f i ∷ tabulate f (i + 1) n

  pub tabulate_ext :
      (f g : ℕ → A) (i n : ℕ)
      → ((j : ℕ) → i ≤ j → j < i + n → f j ≡ g j)
      → tabulate f i n ≡ tabulate g i n
  tabulate_ext f g i zero h = refl
  tabulate_ext f g i (suc n) h =
      ap₂ ◌∷◌ (h i (omega arith) (omega arith))
        (tabulate_ext f g (i + 1) n (λ j p r. h j (omega arith) (omega arith)))

  pub tabulate-append :
      (f : ℕ → A) (i n m : ℕ) → tabulate f i (n + m) ≡ tabulate f i n ++ tabulate f (i + n) m
  tabulate-append f i zero m =
      let e : i + 0 ≡ i = omega arith in let d : 0 + m ≡ m = omega arith in rw (e, d) refl
  tabulate-append f i (suc n) m =
      let d : suc n + m ≡ suc (n + m) = omega arith in
      rw (d) (
        ap (λ l. f i ∷ l)
          (tabulate-append f (i + 1) n m
            ∙ ap (λ j. tabulate f (i + 1) n ++ tabulate f j m) (add_step i n)))

  pub tabulate_shift :
      (f : ℕ → A) (d i n : ℕ) → tabulate f (d + i) n ≡ tabulate (λ j. f (d + j)) i n
  tabulate_shift f d i zero = refl
  tabulate_shift f d i (suc n) =
      ap (λ l. f (d + i) ∷ l)
        (ap (λ j. tabulate f j n) (shift_step d i) ∙ tabulate_shift f d (i + 1) n)

  pub length-tabulate : (f : ℕ → A) (i n : ℕ) → length (tabulate f i n) ≡ n
  length-tabulate f i zero = refl
  length-tabulate f i (suc n) = ap suc (length-tabulate f (i + 1) n)

-- A multiple of the divisor does not change the remainder.
mod_mod_of_mul : (x m c : ℕ) → 0 < m → 0 < c → x % (m * c) % m ≡ x % m
mod_mod_of_mul x m c p q =
    let whole : m * c * (x / (m * c)) + x % (m * c) ≡ x = div-add-mod x (m * c) in
    let part : m * (x % (m * c) / m) + x % (m * c) % m ≡ x % (m * c) =
      div-add-mod (x % (m * c)) m in
    sym (
      mod_of_block x (c * (x / (m * c)) + x % (m * c) / m) m (x % (m * c) % m)
        (grind (arith, whole, part)) (mod-lt (x % (m * c)) p))

pub pow_add : (k j : ℕ) → 2 ^ (k + j) ≡ 2 ^ k * 2 ^ j
pow_add k zero = let e : k + 0 ≡ k = omega arith in rw (e) (omega arith)
pow_add k (suc j) =
    let h : k + suc j ≡ suc (k + j) = omega arith in
    rw (h, pow-suc 2 (k + j), pow-suc 2 j, pow_add k j) (mul_assoc (2 ^ k) (2 ^ j) 2)

-- A `size_t` keeps its low bits when it wraps.
pub u64_mod : (k x : ℕ) → k ≤ 64 → u64 x % 2 ^ k ≡ x % 2 ^ k
u64_mod k x h =
    let whole : k + (64 - k) ≡ 64 = omega arith in
    subst (λ w. x % 2 ^ w % 2 ^ k ≡ x % 2 ^ k) whole
      (subst (λ m. x % m % 2 ^ k ≡ x % 2 ^ k) (sym (pow_add k (64 - k)))
        (mod_mod_of_mul x (2 ^ k) (2 ^ (64 - k)) (pow-pos k) (pow-pos (64 - k))))
