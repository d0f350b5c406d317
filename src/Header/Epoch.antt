-- ===== src/Header/Epoch.antt =====
-- SocketMetadata.h: the timeout epoch, which every successful transfer bumps.
use uvent.Common.{ℕ, zero, suc, ◌+◌, ◌-◌, ◌*◌, ◌/◌, ◌%◌, ◌^◌, ◌<◌, ◌≡◌, ap, ◌∙◌, not, ◌==◌, arith}
use uvent.Common.Bits.{u64, bit_and_mask}
use uvent.Common.Digits.{test_digit, bit_and_field}
use uvent.Header.{timeout_epoch_bump, timeout_epoch_load, is_disconnected_now, get_counter}

-- `n` transfers.
unfoldable pub bumps : ℕ → ℕ → ℕ
bumps zero s = s
bumps (suc n) s = timeout_epoch_bump (bumps n s)

bumps_sum : (n s : ℕ) → s < 2 ^ 64 → bumps n s ≡ u64 (s + n * 2 ^ 40)
unfolding bumps timeout_epoch_bump
bumps_sum zero s h = omega arith
bumps_sum (suc n) s h = omega (arith, bumps_sum n s h)

disconnected_digit : (s : ℕ) → is_disconnected_now s ≡ not (s / 2 ^ 59 % 2 == 0)
unfolding is_disconnected_now
disconnected_digit s = ap (λ x. not (x == 0)) (test_digit 59 s) ∙ ground arith

-- A header that has only references is taken for disconnected after `n` bumps exactly if the digit of
-- weight `2^19` in `n` is set: for the first time after `2^19` bumps.
pub bumps-Disconnects :
    (n c : ℕ) → c < 2 ^ 40 → is_disconnected_now (bumps n c) ≡ not (n / 2 ^ 19 % 2 == 0)
bumps-Disconnects n c h =
    let digit : bumps n c / 2 ^ 59 % 2 ≡ n / 2 ^ 19 % 2 =
      omega (arith, bumps_sum n c (omega arith)) in
    disconnected_digit (bumps n c) ∙ ap (λ x. not (x == 0)) digit

-- Fewer than `2^17` bumps of a header that has only references leave the count and all flags, and the
-- epoch is their number, modulo `2^16`.
pub bumps-Counts :
    (n c : ℕ)
    → c < 2 ^ 40
    → n < 2 ^ 17
    → (timeout_epoch_load (bumps n c) ≡ n % 2 ^ 16 * 2 ^ 40)
      × (get_counter (bumps n c) ≡ c)
      × (bumps n c / 2 ^ 57 ≡ 0)
unfolding timeout_epoch_load get_counter
bumps-Counts n c h k =
    let word : bumps n c ≡ c + n * 2 ^ 40 = omega (arith, bumps_sum n c (omega arith)) in
    (
      bit_and_field 40 (bumps n c) (2 ^ 16 - 1)
          ∙ ap (λ x. x * 2 ^ 40) (bit_and_mask 16 (bumps n c / 2 ^ 40))
          ∙ omega (arith, word),
      bit_and_mask 40 (bumps n c) ∙ omega (arith, word),
      omega (arith, word),
    )
