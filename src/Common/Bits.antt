-- ===== src/Common/Bits.antt =====
-- Machine words, and masks: `x & (2^k - 1)` is the remainder by `2^k`.
use Prim.Native.Nat.{
  ℕ, zero, suc, ◌+◌, ◌-◌, ◌*◌, ◌/◌, ◌%◌, ◌^◌, ◌≤◌, ◌<◌, min, bit_and, digits, bit_and-bitwise,
}
use mathlib.Core.Path.{◌≡◌, ◌∙◌}
use native.Mathlib.Omega.{arith}
use native.Mathlib.Nat.{pow-suc, div-add-mod, mod-lt}

-- `uint64_t` and `size_t`.
abbrev pub u64 : ℕ → ℕ
u64 n = n % 2 ^ 64

pub pow-pos : (k : ℕ) → 0 < 2 ^ k
pow-pos zero = omega arith
pow-pos (suc k) = omega (arith, pow-suc 2 k, pow-pos k)

-- A remainder is known from the block that the number lies in.
pub mod_of_block : (n q i r : ℕ) → n ≡ q * i + r → r < i → n % i ≡ r
mod_of_block n q i r e h = grind arith

-- The lowest digit, and the remainder of the others.
half_mod : (a m : ℕ) → 0 < m → a % (m * 2) ≡ a / 2 % m * 2 + a % 2
half_mod a m h =
    let low : a / 2 % m < m = mod-lt (a / 2) h in
    let whole : m * (a / 2 / m) + a / 2 % m ≡ a / 2 = div-add-mod (a / 2) m in
    mod_of_block a (a / 2 / m) (m * 2) (a / 2 % m * 2 + a % 2) (grind (arith, whole))
      (omega (arith, low))

-- With `n` digits to go, enough for `a`, the mask of `k` ones leaves the remainder.
masked_digits : (n k a : ℕ) → a ≤ n → digits (λ b. zero) min n a (2 ^ k - 1) ≡ a % 2 ^ k
masked_digits zero k a h = omega arith
masked_digits (suc n) k zero h = omega arith
masked_digits (suc n) zero (suc a) h = omega (arith, masked_digits n zero (suc a / 2) (omega arith))
masked_digits (suc n) (suc k) (suc a) h =
    let half : (2 ^ suc k - 1) / 2 ≡ 2 ^ k - 1 = omega (arith, pow-suc 2 k, pow-pos k) in
    let odd : (2 ^ suc k - 1) % 2 ≡ 1 = omega (arith, pow-suc 2 k, pow-pos k) in
    rw (half, odd, pow-suc)
      (omega
        (arith, masked_digits n k (suc a / 2) (omega arith), half_mod (suc a) (2 ^ k) (pow-pos k)))

-- A mask of `k` low bits.
pub bit_and_mask : (k a : ℕ) → bit_and a (2 ^ k - 1) ≡ a % 2 ^ k
bit_and_mask k a = bit_and-bitwise a (2 ^ k - 1) ∙ masked_digits a k a (omega arith)
