-- ===== src/Wheel/Tick.antt =====
-- `tick` of src/utils/timer/TimerWheel.cpp: the queued operations, the time, and the callbacks.
pub mod Run
use uvent.Common.{
  ℕ, zero, suc, ◌+◌, ◌-◌, ◌^◌, ℤ, pos, negsuc, Bool, true, false, ◌&&◌, ◌||◌, Option, none, some,
  List, [], ◌∷◌, ◌++◌, ltb, leb, ◌==◌, if◌then◌else◌, length,
}
use uvent.Common.Bits.{u64}
use uvent.Common.Memory.{update}
use uvent.Timer.{Timer, Op, add, update_op, remove}
use uvent.Wheel.{TimerWheel, slots, add_timer_to_wheel, decrement, advance}
use uvent.Wheel.Cancel.{remove_timer_from_wheel, take_out, dispose}

-- The `ADD` case.
unfoldable pub apply_add : TimerWheel → ℕ → ℕ → TimerWheel
apply_add w p id =
    let w' = record w { max_added_id = if ltb w.max_added_id id then id else w.max_added_id } in
    let placed = add_timer_to_wheel w' p (w.timers p).expiry_time in
    if w.detached_pending id
    then (record w' { detached_pending = update w.detached_pending id false })
    else (if w.cancelled_pending id
        then dispose (record w' { cancelled_pending = update w.cancelled_pending id false }) p
        else (record placed {
          timer_map = update w.timer_map (w.timers p).id (some p);
          active_timer_count = u64 (w.active_timer_count + 1);
        }))

-- The `UPDATE` case, at the clock's reading `now`.
unfoldable pub apply_update : TimerWheel → ℕ → ℕ → ℕ → TimerWheel
apply_update w now id new_dur = elim (w.timer_map id) [
  | none ↦ w
  | some p ↦
      let v = remove_timer_from_wheel w p in
      let expiry = u64 (now + new_dur) in
      let timed = record v {
        timers =
            update v.timers p (record (v.timers p) { duration_ms = new_dur; expiry_time = expiry });
      } in
      if (w.timers p).active then add_timer_to_wheel timed p expiry else w
]

-- The `REMOVE` case.
unfoldable pub apply_remove : TimerWheel → ℕ → Option ℕ → ℕ → TimerWheel
apply_remove w id done arg =
    let v = elim (w.timer_map id) as (λ _. TimerWheel) [
      | some p ↦ if (w.timers p).active then dispose (take_out w id p) p else w
      | none ↦
          if ltb w.max_added_id id
          then (record w { cancelled_pending = update w.cancelled_pending id true })
          else w
    ] in
    record v { called = elim done [ some fn ↦ v.called ++ (fn, arg) ∷ [] | none ↦ v.called ] }

unfoldable pub apply_op : TimerWheel → ℕ → Op → TimerWheel
apply_op w now (add p id) = apply_add w p id
apply_op w now (update_op id new_dur) = apply_update w now id new_dur
apply_op w now (remove id done arg) = apply_remove w id done arg

-- The first loop of `tick` takes the queue's operations in order, in batches of `ops_.size()`. The
-- clock's readings are numbered: the operation at place `k` sees `clock k`.
unfoldable pub drain : (ℕ → ℕ) → ℕ → List Op → TimerWheel → TimerWheel
drain clock k [] w = w
drain clock k (op ∷ ops) w = drain clock (k + 1) ops (apply_op w (clock k) op)

-- `updateNextExpiryTime`: the three loops.
unfoldable pub scan_bucket : (ℕ → Timer) → List ℕ → ℕ → ℕ
scan_bucket timers [] acc = acc
scan_bucket timers (p ∷ ps) acc =
    let t = timers p in
    scan_bucket timers ps
      (if t.active && ((acc == 0) || ltb t.expiry_time acc) then t.expiry_time else acc)

unfoldable pub scan_slots : (ℕ → Timer) → (ℕ → List ℕ) → ℕ → ℕ → ℕ → ℕ
scan_slots timers buckets zero s acc = acc
scan_slots timers buckets (suc n) s acc =
    scan_slots timers buckets n (s + 1) (scan_bucket timers (buckets s) acc)

unfoldable pub scan_levels : (ℕ → Timer) → (ℕ → ℕ → List ℕ) → ℕ → ℕ → ℕ → ℕ
scan_levels timers buckets zero l acc = acc
scan_levels timers buckets (suc n) l acc =
    scan_levels timers buckets n (l + 1) (scan_slots timers (buckets l) slots 0 acc)

unfoldable pub update_next_expiry_time : TimerWheel → TimerWheel
update_next_expiry_time w = record w {
  next_expiry_time = scan_levels w.timers w.buckets w.levels 0 0;
}

-- `refreshNextExpiry`
unfoldable pub refresh_next_expiry : TimerWheel → TimerWheel
refresh_next_expiry w = record w {
  next_expiry_time =
      if w.active_timer_count == 0
      then 0
      else (if w.next_expiry_dirty || (w.next_expiry_time == 0)
          then (update_next_expiry_time w).next_expiry_time
          else w.next_expiry_time);
  next_expiry_dirty = false;
}

-- `while (currentTime_ < newTime) advance();`, by the milliseconds that are left.
unfoldable pub advance_by : ℕ → TimerWheel → Option TimerWheel
advance_by zero w = some w
advance_by (suc n) w = elim (advance w) [ none ↦ none | some w' ↦ advance_by n w' ]

-- The loop over `fired_raw_` and its `clear`.
unfoldable pub run_callbacks : TimerWheel → TimerWheel
run_callbacks w = record w { called = w.called ++ w.fired_raw; fired_raw = [] }

abbrev pub drained : (ℕ → ℕ) → TimerWheel → TimerWheel
drained clock w = record (drain clock 0 w.operations w) { operations = [] }

-- `tick`
unfoldable pub tick : (ℕ → ℕ) → TimerWheel → Option TimerWheel
tick clock w =
    let v = drained clock w in
    let new_time = clock (length w.operations) in
    if leb new_time v.current_time
    then some (refresh_next_expiry v)
    else (elim (advance_by (new_time - v.current_time) v) [
      | none ↦ none
      | some u ↦ some (run_callbacks (refresh_next_expiry u))
    ])

-- `getNextTimeout`, at the clock's reading: the `int` -1 when no timer is set.
unfoldable pub get_next_timeout : TimerWheel → ℕ → ℤ
get_next_timeout w now =
    if w.next_expiry_time == 0
    then negsuc 0
    else (if leb w.next_expiry_time now
        then pos 0
        else (if ltb (2 ^ 31 - 1) (w.next_expiry_time - now)
            then pos (2 ^ 31 - 1)
            else pos (w.next_expiry_time - now)))

-- `empty`
unfoldable pub empty : TimerWheel → Bool
empty w = w.active_timer_count == 0
