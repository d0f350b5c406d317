-- ===== src/Wheel/Cancel.antt =====
-- The calls of src/utils/timer/TimerWheel.cpp that queue an operation or cancel a timer at once.
use uvent.Common.{
  ℕ, ◌+◌, Bool, true, false, Option, none, some, List, [], ◌∷◌, ◌++◌, ltb, leb, ◌==◌, if◌then◌else◌,
  get_elem?,
}
use uvent.Common.Bits.{u64}
use uvent.Common.Memory.{update}
use uvent.Timer.{add, update_op, remove}
use uvent.Wheel.{TimerWheel, swap_pop_at, decrement}

-- `addTimer`, at the clock's reading `now`. Ids are counted from 1.
unfoldable pub add_timer : TimerWheel → ℕ → ℕ → ℕ × TimerWheel
add_timer w now p =
    let id = u64 (w.timer_id_counter + 1) in
    let t = w.timers p in
    (
      id,
      record w {
        timers = update w.timers p (record t { expiry_time = u64 (now + t.duration_ms); id = id });
        timer_id_counter = id;
        operations = w.operations ++ add p id ∷ [];
      },
    )

-- `updateTimer`
unfoldable pub update_timer : TimerWheel → ℕ → ℕ → Bool × TimerWheel
update_timer w id new_duration =
    (true, record w { operations = w.operations ++ update_op id new_duration ∷ [] })

-- `removeTimer`
unfoldable pub remove_timer : TimerWheel → ℕ → Option ℕ → ℕ → Bool × TimerWheel
remove_timer w id done done_arg =
    (true, record w { operations = w.operations ++ remove id done done_arg ∷ [] })

-- `std::find`, as an index.
unfoldable pub find_index : ℕ → List ℕ → Option ℕ
find_index p [] = none
find_index p (q ∷ qs) =
    if q == p then some 0 else elim (find_index p qs) [ none ↦ none | some i ↦ some (i + 1) ]

-- Where `removeTimerFromWheel` finds the timer: at its recorded position, or by searching.
unfoldable pub index_of : ℕ → List ℕ → ℕ → Option ℕ
index_of p bucket pos = elim (get_elem? bucket pos) [
  | some q ↦ if q == p then some pos else find_index p bucket
  | none ↦ find_index p bucket
]

-- `removeTimerFromWheel`
unfoldable pub remove_timer_from_wheel : TimerWheel → ℕ → TimerWheel
remove_timer_from_wheel w p =
    let t = w.timers p in
    let found = index_of p (w.buckets t.level t.slot_index) t.pos_in_bucket in
    let w' = elim found as (λ _. TimerWheel) [
      | none ↦ w
      | some at ↦ swap_pop_at w t.level t.slot_index at
    ] in
    if leb w.levels t.level then w else (record w' {
      next_expiry_dirty = if t.expiry_time == w.next_expiry_time then true else w.next_expiry_dirty;
    })

-- What `cancelTimer`, `cancelTimerDetach` and a queued removal do alike: the timer is no longer
-- active, and the wheel no longer refers to it.
unfoldable pub take_out : TimerWheel → ℕ → ℕ → TimerWheel
unfolding remove_timer_from_wheel
take_out w id p =
    let w' =
      remove_timer_from_wheel
        (record w { timers = update w.timers p (record (w.timers p) { active = false }) }) p in
    record w' {
      timer_map = update w'.timer_map id none;
      active_timer_count = decrement w'.active_timer_count;
    }

-- `if (t->coro) t->coro.destroy(); if (t->heap) delete t;`
unfoldable pub dispose : TimerWheel → ℕ → TimerWheel
dispose w p =
    let t = w.timers p in
    record w {
      destroyed = elim t.coro [ some h ↦ w.destroyed ++ h ∷ [] | none ↦ w.destroyed ];
      freed = if t.heap then w.freed ++ p ∷ [] else w.freed;
    }

-- `cancelTimer`
unfoldable pub cancel_timer : TimerWheel → ℕ → Bool × TimerWheel
cancel_timer w id = if id == 0 then (false, w) else (elim (w.timer_map id) [
  | none ↦
      if ltb w.max_added_id id
      then (true, record w { cancelled_pending = update w.cancelled_pending id true })
      else (false, w)
  | some p ↦ if (w.timers p).active then (true, dispose (take_out w id p) p) else (false, w)
])

-- `cancelTimerDetach`
unfoldable pub cancel_timer_detach : TimerWheel → ℕ → Bool × TimerWheel
cancel_timer_detach w id = if id == 0 then (false, w) else (elim (w.timer_map id) [
  | none ↦
      if ltb w.max_added_id id
      then (true, record w { detached_pending = update w.detached_pending id true })
      else (false, w)
  | some p ↦ if (w.timers p).active then (true, take_out w id p) else (false, w)
])
