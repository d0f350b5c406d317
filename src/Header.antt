-- ===== src/Header.antt =====
-- include/uvent/utils/sync/RefCountedSession.h and the state word of `SocketHeader` in
-- include/uvent/net/SocketMetadata.h: the count of references in 40 bits, the timeout epoch in the next
-- 16, and the flags. A loop that ends with a successful exchange is one step on the current word.
pub mod Flags
pub mod Epoch
pub mod Refs
mod Tests
use Prim.Native.Nat.{bit_and, bit_or}
use uvent.Common.{
  ℕ, zero, suc, ◌+◌, ◌-◌, ◌*◌, ◌^◌, Bool, true, false, not, ◌||◌, ◌==◌, if◌then◌else◌,
}
use uvent.Common.Bits.{u64}

abbrev pub closed_mask : ℕ
closed_mask = 2 ^ 63

abbrev pub busy_mask : ℕ
busy_mask = 2 ^ 62

abbrev pub reading_mask : ℕ
reading_mask = 2 ^ 61

abbrev pub writing_mask : ℕ
writing_mask = 2 ^ 60

abbrev pub disconnected_mask : ℕ
disconnected_mask = 2 ^ 59

abbrev pub count_mask : ℕ
count_mask = 2 ^ 40 - 1

abbrev pub timeout_epoch_step : ℕ
timeout_epoch_step = 2 ^ 40

abbrev pub timeout_epoch_mask : ℕ
timeout_epoch_mask = (2 ^ 16 - 1) * 2 ^ 40

-- `~m` in 64 bits.
abbrev pub complement : ℕ → ℕ
complement m = 2 ^ 64 - 1 - m

abbrev pub is_closed : ℕ → Bool
is_closed s = not (bit_and s closed_mask == 0)

-- `pack` and `initial_state`
abbrev pub pack : ℕ → Bool → ℕ
pack cnt closed = bit_or (bit_and cnt count_mask) (if closed then closed_mask else 0)

abbrev pub initial_state : ℕ
initial_state = pack 1 false

-- `try_add_ref`: whether a reference was added, and the new word.
unfoldable pub try_add_ref : ℕ → Bool × ℕ
try_add_ref s =
    if is_closed s || (bit_and s count_mask == count_mask)
    then (false, s)
    else (true, bit_or (bit_and s (complement count_mask)) (bit_and s count_mask + 1))

unfoldable pub add_ref : ℕ → ℕ
add_ref s = u64 (s + 1)

-- `release`: whether the session is destroyed, and the new word.
unfoldable pub release : ℕ → Bool × ℕ
release s = (bit_and s count_mask == 1, u64 (s + 2 ^ 64 - 1))

unfoldable pub close_for_new_refs : ℕ → ℕ
close_for_new_refs s = bit_or s closed_mask

unfoldable pub try_mark_busy : ℕ → Bool × ℕ
try_mark_busy s =
    if bit_and s (bit_or (bit_or closed_mask disconnected_mask) busy_mask) == 0
    then (true, bit_or s busy_mask)
    else (false, s)

unfoldable pub clear_busy : ℕ → ℕ
clear_busy s = bit_and s (complement busy_mask)

unfoldable pub is_busy_now : ℕ → Bool
is_busy_now s = not (bit_and s busy_mask == 0)

unfoldable pub try_mark_reading : ℕ → Bool × ℕ
try_mark_reading s = if is_closed s then (false, s) else (true, bit_or s reading_mask)

unfoldable pub clear_reading : ℕ → ℕ
clear_reading s = bit_and s (complement reading_mask)

unfoldable pub is_reading_now : ℕ → Bool
is_reading_now s = not (bit_and s reading_mask == 0)

unfoldable pub try_mark_writing : ℕ → Bool × ℕ
try_mark_writing s = if is_closed s then (false, s) else (true, bit_or s writing_mask)

unfoldable pub clear_writing : ℕ → ℕ
clear_writing s = bit_and s (complement writing_mask)

unfoldable pub is_writing_now : ℕ → Bool
is_writing_now s = not (bit_and s writing_mask == 0)

unfoldable pub mark_disconnected : ℕ → ℕ
mark_disconnected s = bit_or s disconnected_mask

unfoldable pub is_disconnected_now : ℕ → Bool
is_disconnected_now s = not (bit_and s disconnected_mask == 0)

-- `timeout_epoch_snapshot` and `timeout_epoch_load`
unfoldable pub timeout_epoch_load : ℕ → ℕ
timeout_epoch_load s = bit_and s timeout_epoch_mask

unfoldable pub timeout_epoch_bump : ℕ → ℕ
timeout_epoch_bump s = u64 (s + timeout_epoch_step)

unfoldable pub timeout_epoch_changed : ℕ → ℕ → Bool
timeout_epoch_changed s snap = not (bit_and s timeout_epoch_mask == snap)

unfoldable pub get_counter : ℕ → ℕ
get_counter s = bit_and s count_mask

unfoldable pub is_done_client_coroutine_with_timeout : ℕ → Bool
is_done_client_coroutine_with_timeout s = bit_and s count_mask == 1
