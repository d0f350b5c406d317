-- ===== src/Wheel.antt =====
-- The state of `TimerWheel` (include/uvent/utils/timer/TimerWheel.h), the placement of timers in
-- its buckets, and the slot processing of src/utils/timer/TimerWheel.cpp.
--
-- The heap of timers is part of the state, since the wheel's buckets and its map hold pointers.
-- What leaves the wheel is logged: callbacks run, coroutines resumed or destroyed, timers freed.
pub mod Placement
pub mod Bucket
pub mod Progress
pub mod Round
pub mod Fires
pub mod Slot
pub mod Advance
pub mod Tick
pub mod Count
pub mod Cancelled
pub mod Cancel
pub mod Queued
pub mod Hang
mod Tests
use Prim.Native.Nat.{bit_and}
use uvent.Common.{
  ℕ, zero, suc, ◌+◌, ◌-◌, ◌*◌, ◌/◌, ◌%◌, ◌^◌, Bool, true, false, ◌&&◌, ◌||◌, Option, none, some,
  List, [], ◌∷◌, ◌++◌, ltb, leb, ◌==◌, if◌then◌else◌, length, get_elem?, get_or, set, take,
}
use uvent.Common.Memory.{update}
use uvent.Timer.{Timer, Op}

-- `settings::tw_levels`, 4 unless a program changes it. A level has 256 slots; level `i` has slots
-- of `1ull << (8 * i)` milliseconds.
abbrev pub slots : ℕ
slots = 256

abbrev pub interval : ℕ → ℕ
interval l = 2 ^ (8 * l)

pub record TimerWheel : Type 0 where
  pub levels : ℕ
  pub buckets : ℕ → ℕ → List ℕ
  pub current_time : ℕ
  pub timer_map : ℕ → Option ℕ
  pub timer_id_counter : ℕ
  pub next_expiry_time : ℕ
  pub next_expiry_dirty : Bool
  pub active_timer_count : ℕ
  pub operations : List Op
  pub fired_raw : List (ℕ × ℕ)
  pub cancelled_pending : ℕ → Bool
  pub detached_pending : ℕ → Bool
  pub max_added_id : ℕ
  pub timers : ℕ → Timer
  pub resumed : List ℕ
  pub destroyed : List ℕ
  pub freed : List ℕ
  pub called : List (ℕ × ℕ)

-- `TimerWheel::TimerWheel`, at the clock's reading, over a heap of timers that exist already.
unfoldable pub new_wheel : ℕ → ℕ → (ℕ → Timer) → TimerWheel
new_wheel levels now timers = record {
  levels = levels;
  buckets = λ l s. [];
  current_time = now;
  timer_map = λ i. none;
  timer_id_counter = 0;
  next_expiry_time = 0;
  next_expiry_dirty = false;
  active_timer_count = 0;
  operations = [];
  fired_raw = [];
  cancelled_pending = λ i. false;
  detached_pending = λ i. false;
  max_added_id = 0;
  timers = timers;
  resumed = [];
  destroyed = [];
  freed = [];
  called = [];
}

abbrev pub set_bucket : (ℕ → ℕ → List ℕ) → ℕ → ℕ → List ℕ → ℕ → ℕ → List ℕ
set_bucket bs l s b i j = if (i == l) && (j == s) then b else bs i j

-- `size_t` decrement.
abbrev pub decrement : ℕ → ℕ
decrement n = (n + 2 ^ 64 - 1) % 2 ^ 64

-- The `while` of `addTimerToWheel`, with the number of levels above `level` as its counter.
unfoldable pub level_for : ℕ → ℕ → ℕ → ℕ
level_for zero level diff = level
level_for (suc above) level diff =
    let up = level_for above (level + 1) diff in
    if leb (interval level * slots) diff then up else level

-- `diff` and `slot` of `addTimerToWheel`.
unfoldable pub distance : ℕ → ℕ → ℕ
distance now expiry = if ltb now expiry then expiry - now else 0

unfoldable pub slot_for : ℕ → ℕ → ℕ → ℕ
unfolding distance
slot_for now expiry level =
    if distance now expiry == 0
    then bit_and (now + 1) (slots - 1)
    else bit_and (expiry / interval level) (slots - 1)

-- `addTimerToWheel`
unfoldable pub add_timer_to_wheel : TimerWheel → ℕ → ℕ → TimerWheel
add_timer_to_wheel w p expiry =
    let l = level_for (w.levels - 1) 0 (distance w.current_time expiry) in
    let s = slot_for w.current_time expiry l in
    record w {
      timers = update w.timers p (record (w.timers p) {
        level = l;
        slot_index = s;
        pos_in_bucket = length (w.buckets l s);
      });
      buckets = set_bucket w.buckets l s (w.buckets l s ++ p ∷ []);
      next_expiry_time =
          if (w.next_expiry_time == 0) || ltb expiry w.next_expiry_time
          then expiry
          else w.next_expiry_time;
    }

-- The bucket after `swap_pop_at`: the last pointer takes the place, and the vector loses its end.
unfoldable pub swap_pop : ℕ → List ℕ → List ℕ
swap_pop at bucket =
    if at == (length bucket - 1)
    then take (length bucket - 1) bucket
    else take (length bucket - 1) (set bucket at (get_or bucket (length bucket - 1) 0))

-- The write of `posInBucket` in `swap_pop_at`, to the timer that moves.
unfoldable pub moved_timers : (ℕ → Timer) → ℕ → List ℕ → ℕ → Timer
moved_timers timers at bucket =
    let q = get_or bucket (length bucket - 1) 0 in
    if at == (length bucket - 1)
    then timers
    else update timers q (record (timers q) { pos_in_bucket = at })

unfoldable pub swap_pop_at : TimerWheel → ℕ → ℕ → ℕ → TimerWheel
swap_pop_at w l s at = record w {
  buckets = set_bucket w.buckets l s (swap_pop at (w.buckets l s));
  timers = moved_timers w.timers at (w.buckets l s);
}

-- The branch of `processSlot` for a timer that is due.
unfoldable pub fire : TimerWheel → ℕ → TimerWheel
fire w p =
    let t = w.timers p in
    record w {
      fired_raw = elim t.raw_fn [
        | some fn ↦ w.fired_raw ++ (fn, t.raw_arg) ∷ []
        | none ↦ w.fired_raw
      ];
      resumed = elim t.raw_fn [
        | some fn ↦ w.resumed
        | none ↦ elim t.coro [ some h ↦ w.resumed ++ h ∷ [] | none ↦ w.resumed ]
      ];
      timers = update w.timers p (record t { active = false });
      timer_map = update w.timer_map t.id none;
      active_timer_count = decrement w.active_timer_count;
      next_expiry_dirty = if t.expiry_time == w.next_expiry_time then true else w.next_expiry_dirty;
      freed = if t.heap then w.freed ++ p ∷ [] else w.freed;
    }

-- One round of `processSlot` before its `swap_pop_at`.
unfoldable pub visit : TimerWheel → ℕ → TimerWheel
visit w p =
    if (w.timers p).active
    then (if leb (w.timers p).expiry_time w.current_time
        then fire w p
        else add_timer_to_wheel w p (w.timers p).expiry_time)
    else w

-- The `while` of `processSlot`; `none` means that the fuel ran out.
unfoldable pub process_from : ℕ → ℕ → TimerWheel → ℕ → ℕ → Option TimerWheel
process_from zero i w l s = none
process_from (suc fuel) i w l s = elim (get_elem? (w.buckets l s) i) [
  | none ↦ some w
  | some p ↦ process_from fuel i (swap_pop_at (visit w p) l s i) l s
]

-- `processSlot`. Every round takes one pointer out of the bucket, so a round for each pointer there
-- and one for the last test are enough, unless a round puts its pointer back.
unfoldable pub process_slot : TimerWheel → ℕ → ℕ → Option TimerWheel
process_slot w l s = process_from (suc (length (w.buckets l s))) 0 w l s

-- The `for` of `advance` over the levels `k, k-1, ..., 1`.
unfoldable pub cascade : ℕ → TimerWheel → Option TimerWheel
cascade zero w = some w
cascade (suc k) w = elim ((w.current_time % interval (suc k)) == 0) [
  | true ↦ elim (process_slot w (suc k) (bit_and (w.current_time / interval (suc k)) (slots - 1))) [
    | none ↦ none
    | some w' ↦ cascade k w'
  ]
  | false ↦ cascade k w
]

-- `advance`
unfoldable pub advance : TimerWheel → Option TimerWheel
advance w = elim (cascade (w.levels - 1) (record w { current_time = w.current_time + 1 })) [
  | none ↦ none
  | some w' ↦ process_slot w' 0 (bit_and w'.current_time (slots - 1))
]
