-- ===== src/Common/Digits.antt =====
-- `&`, `|` and `^` of machine words as arithmetic: one digit at a time, and with a shifted operand.
use Prim.Native.Nat.{
  ℕ, zero, suc, ◌+◌, ◌-◌, ◌*◌, ◌/◌, ◌%◌, ◌^◌, ◌≤◌, ◌<◌, min, max, differ, digits, bit_and, bit_or,
  bit_xor, bit_and-bitwise, bit_or-bitwise, bit_xor-bitwise,
}
use mathlib.Core.Path.{◌≡◌, refl, sym, ap, ap₂, ◌∙◌}
use native.Mathlib.Omega.{arith}
use native.Mathlib.Nat.{pow-suc, div-add-mod', mod-lt, mod-eq_of_lt}
use uvent.Common.Bits.{pow-pos, bit_and_mask}

-- More rounds than digits change nothing.
module _ (z : ℕ → ℕ) (f : ℕ → ℕ → ℕ) where
  rounds_lem : (n m a b : ℕ) → a ≤ n → a ≤ m → digits z f n a b ≡ digits z f m a b
  rounds_lem zero zero zero b p q = refl
  rounds_lem zero (suc m) zero b p q = refl
  rounds_lem (suc n) zero zero b p q = refl
  rounds_lem (suc n) (suc m) zero b p q = refl
  rounds_lem zero m (suc a) b p q = absurd (omega arith)
  rounds_lem (suc n) zero (suc a) b p q = absurd (omega arith)
  rounds_lem (suc n) (suc m) (suc a) b p q =
      ap (λ r. r * 2 + f (suc a % 2) (b % 2))
        (rounds_lem n m (suc a / 2) (b / 2) (omega arith) (omega arith))

-- The digits above the lowest, then the lowest.
pub bit_and_digit : (a b : ℕ) → bit_and a b ≡ bit_and (a / 2) (b / 2) * 2 + min (a % 2) (b % 2)
bit_and_digit zero b = omega (arith, bit_and-bitwise 0 b, bit_and-bitwise 0 (b / 2))
bit_and_digit (suc a) b =
    let upper : digits (λ b. zero) min a (suc a / 2) (b / 2) ≡ bit_and (suc a / 2) (b / 2) =
      rounds_lem (λ b. zero) min a (suc a / 2) (suc a / 2) (b / 2) (omega arith) (omega arith)
      ∙ sym (bit_and-bitwise (suc a / 2) (b / 2)) in
    bit_and-bitwise (suc a) b ∙ ap (λ r. r * 2 + min (suc a % 2) (b % 2)) upper

pub bit_or_digit : (a b : ℕ) → bit_or a b ≡ bit_or (a / 2) (b / 2) * 2 + max (a % 2) (b % 2)
bit_or_digit zero b = omega (arith, bit_or-bitwise 0 b, bit_or-bitwise 0 (b / 2))
bit_or_digit (suc a) b =
    let upper : digits (λ b. b) max a (suc a / 2) (b / 2) ≡ bit_or (suc a / 2) (b / 2) =
      rounds_lem (λ b. b) max a (suc a / 2) (suc a / 2) (b / 2) (omega arith) (omega arith)
      ∙ sym (bit_or-bitwise (suc a / 2) (b / 2)) in
    bit_or-bitwise (suc a) b ∙ ap (λ r. r * 2 + max (suc a % 2) (b % 2)) upper

pub bit_xor_digit : (a b : ℕ) → bit_xor a b ≡ bit_xor (a / 2) (b / 2) * 2 + differ (a % 2) (b % 2)
bit_xor_digit zero b = omega (arith, bit_xor-bitwise 0 b, bit_xor-bitwise 0 (b / 2))
bit_xor_digit (suc a) b =
    let upper : digits (λ b. b) differ a (suc a / 2) (b / 2) ≡ bit_xor (suc a / 2) (b / 2) =
      rounds_lem (λ b. b) differ a (suc a / 2) (suc a / 2) (b / 2) (omega arith) (omega arith)
      ∙ sym (bit_xor-bitwise (suc a / 2) (b / 2)) in
    bit_xor-bitwise (suc a) b ∙ ap (λ r. r * 2 + differ (suc a % 2) (b % 2)) upper

bit_and_zero : (n a : ℕ) → a ≤ n → bit_and a 0 ≡ 0
bit_and_zero zero zero h = refl
bit_and_zero zero (suc a) h = absurd (omega arith)
bit_and_zero (suc n) zero h = refl
bit_and_zero (suc n) (suc a) h =
    omega (arith, bit_and_digit (suc a) 0, bit_and_zero n (suc a / 2) (omega arith))

bit_or_zero : (n a : ℕ) → a ≤ n → bit_or a 0 ≡ a
bit_or_zero zero zero h = refl
bit_or_zero zero (suc a) h = absurd (omega arith)
bit_or_zero (suc n) zero h = refl
bit_or_zero (suc n) (suc a) h =
    omega (arith, bit_or_digit (suc a) 0, bit_or_zero n (suc a / 2) (omega arith))

pub zero-bit_or : (n a : ℕ) → a ≤ n → bit_or 0 a ≡ a
zero-bit_or zero zero h = refl
zero-bit_or zero (suc a) h = absurd (omega arith)
zero-bit_or (suc n) zero h = refl
zero-bit_or (suc n) (suc a) h =
    omega (arith, bit_or_digit 0 (suc a), zero-bit_or n (suc a / 2) (omega arith))

differ_zero : (x : ℕ) → differ x 0 ≡ x
differ_zero zero = refl
differ_zero (suc x) = refl

bit_xor_zero : (n a : ℕ) → a ≤ n → bit_xor a 0 ≡ a
bit_xor_zero zero zero h = refl
bit_xor_zero zero (suc a) h = absurd (omega arith)
bit_xor_zero (suc n) zero h = refl
bit_xor_zero (suc n) (suc a) h = omega (
  arith,
  bit_xor_digit (suc a) 0,
  differ_zero (suc a % 2),
  bit_xor_zero n (suc a / 2) (omega arith),
)

half_block : (m k : ℕ) → m * 2 ^ suc k ≡ 2 * (m * 2 ^ k)
half_block m k = grind (arith, pow-suc 2 k)

-- Half of a shifted operand, and of a number with `r` below the shift.
upper_digits :
    (op : ℕ → ℕ → ℕ) (q r m k : ℕ)
    → op ((q * 2 ^ suc k + r) / 2) (m * 2 ^ suc k / 2) ≡ op (q * 2 ^ k + r / 2) (m * 2 ^ k)
upper_digits op q r m k = ap₂ op (omega (arith, half_block q k)) (omega (arith, half_block m k))

-- A shifted operand meets the digits above its shift.
pub bit_and_shift :
    (k q r m : ℕ) → r < 2 ^ k → bit_and (q * 2 ^ k + r) (m * 2 ^ k) ≡ bit_and q m * 2 ^ k
bit_and_shift zero q r m h =
    let e : q * 2 ^ 0 + r ≡ q = omega arith in
    let f : m * 2 ^ 0 ≡ m = omega arith in rw (e, f) (omega arith)
bit_and_shift (suc k) q r m h = omega (
  arith,
  bit_and_digit (q * 2 ^ suc k + r) (m * 2 ^ suc k),
  half_block q k,
  half_block m k,
  half_block (bit_and q m) k,
  upper_digits (λ x y. bit_and x y) q r m k,
  bit_and_shift k q (r / 2) m (omega (arith, pow-suc 2 k)),
)

pub bit_or_shift :
    (k q r m : ℕ) → r < 2 ^ k → bit_or (q * 2 ^ k + r) (m * 2 ^ k) ≡ bit_or q m * 2 ^ k + r
bit_or_shift zero q r m h =
    let e : q * 2 ^ 0 + r ≡ q = omega arith in
    let f : m * 2 ^ 0 ≡ m = omega arith in rw (e, f) (omega arith)
bit_or_shift (suc k) q r m h = omega (
  arith,
  bit_or_digit (q * 2 ^ suc k + r) (m * 2 ^ suc k),
  half_block q k,
  half_block m k,
  half_block (bit_or q m) k,
  upper_digits (λ x y. bit_or x y) q r m k,
  bit_or_shift k q (r / 2) m (omega (arith, pow-suc 2 k)),
)

pub bit_xor_shift :
    (k q r m : ℕ) → r < 2 ^ k → bit_xor (q * 2 ^ k + r) (m * 2 ^ k) ≡ bit_xor q m * 2 ^ k + r
bit_xor_shift zero q r m h =
    let e : q * 2 ^ 0 + r ≡ q = omega arith in
    let f : m * 2 ^ 0 ≡ m = omega arith in rw (e, f) (omega arith)
bit_xor_shift (suc k) q r m h =
    let first : (q * 2 ^ suc k + r) % 2 ≡ r % 2 = omega (arith, half_block q k) in
    let second : m * 2 ^ suc k % 2 ≡ 0 = omega (arith, half_block m k) in
    let low : differ ((q * 2 ^ suc k + r) % 2) (m * 2 ^ suc k % 2) ≡ r % 2 =
      ap (λ x. differ x (m * 2 ^ suc k % 2)) first
      ∙ ap (λ x. differ (r % 2) x) second
      ∙ differ_zero (r % 2) in
    omega (
      arith,
      bit_xor_digit (q * 2 ^ suc k + r) (m * 2 ^ suc k),
      low,
      half_block q k,
      half_block (bit_xor q m) k,
      upper_digits (λ x y. bit_xor x y) q r m k,
      bit_xor_shift k q (r / 2) m (omega (arith, pow-suc 2 k)),
    )

-- The operations on a whole word, whose second operand is shifted by `k`.
pub bit_and_field : (k a m : ℕ) → bit_and a (m * 2 ^ k) ≡ bit_and (a / 2 ^ k) m * 2 ^ k
bit_and_field k a m =
    ap (λ x. bit_and x (m * 2 ^ k)) (sym (div-add-mod' a (2 ^ k)))
    ∙ bit_and_shift k (a / 2 ^ k) (a % 2 ^ k) m (mod-lt a (pow-pos k))

pub bit_or_field : (k a m : ℕ) → bit_or a (m * 2 ^ k) ≡ bit_or (a / 2 ^ k) m * 2 ^ k + a % 2 ^ k
bit_or_field k a m =
    ap (λ x. bit_or x (m * 2 ^ k)) (sym (div-add-mod' a (2 ^ k)))
    ∙ bit_or_shift k (a / 2 ^ k) (a % 2 ^ k) m (mod-lt a (pow-pos k))

-- A value below the shift fills the low digits.
pub bit_or_low : (k q r : ℕ) → r < 2 ^ k → bit_or (q * 2 ^ k) r ≡ q * 2 ^ k + r
bit_or_low zero q r h =
    let e : q * 2 ^ 0 ≡ q = omega arith in
    let f : r ≡ 0 = omega arith in rw (e, f) (omega (arith, bit_or_zero q q (omega arith)))
bit_or_low (suc k) q r h =
    let half : q * 2 ^ suc k / 2 ≡ q * 2 ^ k = omega (arith, half_block q k) in
    let upper : bit_or (q * 2 ^ suc k / 2) (r / 2) ≡ bit_or (q * 2 ^ k) (r / 2) =
      ap (λ x. bit_or x (r / 2)) half in
    omega (
      arith,
      bit_or_digit (q * 2 ^ suc k) r,
      half_block q k,
      upper,
      bit_or_low k q (r / 2) (omega (arith, pow-suc 2 k)),
    )

-- One digit set: `a | 1 << k`.
bit_or_one : (q : ℕ) → bit_or q 1 ≡ q + (1 - q % 2)
bit_or_one q = omega (arith, bit_or_digit q 1, bit_or_zero (q / 2) (q / 2) (omega arith))

pub set_digit : (k a : ℕ) → bit_or a (2 ^ k) ≡ a + (1 - a / 2 ^ k % 2) * 2 ^ k
set_digit k a =
    let one : 1 * 2 ^ k ≡ 2 ^ k = omega arith in
    let whole = div-add-mod' a (2 ^ k) in
    ap (λ x. bit_or a x) (sym one)
    ∙ bit_or_field k a 1
    ∙ ap (λ x. x * 2 ^ k + a % 2 ^ k) (bit_or_one (a / 2 ^ k))
    ∙ grind (arith, whole)

-- One digit read: `a & 1 << k`.
pub test_digit : (k a : ℕ) → bit_and a (2 ^ k) ≡ a / 2 ^ k % 2 * 2 ^ k
test_digit k a =
    let one : 1 * 2 ^ k ≡ 2 ^ k = omega arith in
    ap (λ x. bit_and a x) (sym one)
    ∙ bit_and_field k a 1
    ∙ ap (λ x. x * 2 ^ k) (bit_and_mask 1 (a / 2 ^ k))

-- A mask whose low `k` digits are set keeps the low digits.
bit_and_low :
    (k q r m : ℕ)
    → r < 2 ^ k
    → bit_and (q * 2 ^ k + r) (m * 2 ^ k + (2 ^ k - 1)) ≡ bit_and q m * 2 ^ k + r
bit_and_low zero q r m h =
    let e : q * 2 ^ 0 + r ≡ q = omega arith in
    let f : m * 2 ^ 0 + (2 ^ 0 - 1) ≡ m = omega arith in rw (e, f) (omega arith)
bit_and_low (suc k) q r m h =
    let upper : bit_and ((q * 2 ^ suc k + r) / 2) ((m * 2 ^ suc k + (2 ^ suc k - 1)) / 2)
        ≡ bit_and (q * 2 ^ k + r / 2) (m * 2 ^ k + (2 ^ k - 1)) =
      ap₂ (λ x y. bit_and x y) (omega (arith, half_block q k))
        (omega (arith, half_block m k, pow-suc 2 k, pow-pos k)) in
    omega (
      arith,
      bit_and_digit (q * 2 ^ suc k + r) (m * 2 ^ suc k + (2 ^ suc k - 1)),
      half_block q k,
      half_block m k,
      half_block (bit_and q m) k,
      pow-suc 2 k,
      pow-pos k,
      upper,
      bit_and_low k q (r / 2) m (omega (arith, pow-suc 2 k)),
    )

-- One digit cleared: `a & ~(1 << k)` in a word of `k + 1 + j` digits.
clear_lowest : (j q : ℕ) → q < 2 ^ suc j → bit_and q (2 ^ suc j - 2) ≡ q - q % 2
clear_lowest j q h =
    let half : (2 ^ suc j - 2) / 2 ≡ 2 ^ j - 1 = omega (arith, pow-suc 2 j) in
    let upper : bit_and (q / 2) ((2 ^ suc j - 2) / 2) ≡ q / 2 % 2 ^ j =
      ap (λ x. bit_and (q / 2) x) half ∙ bit_and_mask j (q / 2) in
    let small : q / 2 % 2 ^ j ≡ q / 2 = mod-eq_of_lt (omega (arith, pow-suc 2 j)) in
    omega (arith, bit_and_digit q (2 ^ suc j - 2), upper, small, pow-suc 2 j)

pub clear_digit :
    (j k a : ℕ)
    → a / 2 ^ k < 2 ^ suc j
    → bit_and a ((2 ^ suc j - 2) * 2 ^ k + (2 ^ k - 1)) ≡ a - a / 2 ^ k % 2 * 2 ^ k
clear_digit j k a h =
    let whole = div-add-mod' a (2 ^ k) in
    ap (λ x. bit_and x ((2 ^ suc j - 2) * 2 ^ k + (2 ^ k - 1))) (sym whole)
    ∙ bit_and_low k (a / 2 ^ k) (a % 2 ^ k) (2 ^ suc j - 2) (mod-lt a (pow-pos k))
    ∙ ap (λ x. x * 2 ^ k + a % 2 ^ k) (clear_lowest j (a / 2 ^ k) h)
    ∙ grind (arith, whole)
