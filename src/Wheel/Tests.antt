-- ===== src/Wheel/Tests.antt =====
-- Runs of the wheel, and its theorems at concrete wheels.
use uvent.Common.{
  true, inl, ℕ, ◌+◌, ◌^◌, ◌≡◌, refl, Option, none, some, List, [], ◌∷◌, arith, if◌then◌else◌, ◌==◌,
  ◌&&◌,
}
use uvent.Timer.{Timer, new_timer, arm_raw, add}
use uvent.Wheel.{
  add_timer_to_wheel, slot_for, level_for, distance, TimerWheel, new_wheel, add_timer_to_wheel,
  advance, process_from, slot_for, level_for, swap_pop, swap_pop_at, moved_timers, process_slot,
  cascade, visit, fire, distance,
}
use uvent.Wheel.Advance.{IsPlaced, Advanced, advance-Advanced}
use uvent.Wheel.Tick.{
  tick, drained, drain, apply_op, apply_add, advance_by, refresh_next_expiry,
  update_next_expiry_time, run_callbacks, scan_levels, scan_slots, scan_bucket,
}
use uvent.Wheel.Cancel.{cancel_timer, dispose}
use uvent.Wheel.Tick.Run.{Ticked, tick-Ticked}
use uvent.Wheel.Queued.{new_wheel-IsPlaced, apply_add-IsPlaced}
use uvent.Wheel.Cancelled.{Cancelled, cancel_timer-Cancelled}
use uvent.Wheel.Hang.{IsFarAhead, process_from-IsFarAhead}

-- Timer 7 calls back with function 5 and argument 9 at the time 1300.
abbrev timers : ℕ → Timer
unfolding new_timer arm_raw
timers p = record (arm_raw (new_timer 300) 300 5 9) { expiry_time = 1300; id = p }

abbrev fresh : TimerWheel
fresh = new_wheel 4 1000 timers

abbrev armed : TimerWheel
armed = apply_add fresh 7 7

fresh-IsPlaced : IsPlaced fresh
fresh-IsPlaced = new_wheel-IsPlaced 4 1000 timers

apply_add-IsPlaced_example : IsPlaced armed
unfolding new_wheel timers new_timer arm_raw
apply_add-IsPlaced_example = apply_add-IsPlaced fresh 7 7 fresh-IsPlaced (omega arith)

advance-Advanced_example : (w : TimerWheel) × (advance armed ≡ some w) × Advanced armed w
advance-Advanced_example = advance-Advanced armed apply_add-IsPlaced_example

abbrev queued : TimerWheel
queued = record fresh { operations = add 7 7 ∷ [] }

queued-IsPlaced : IsPlaced (drained (λ k. 1301) queued)
unfolding drain apply_op new_wheel timers new_timer arm_raw
queued-IsPlaced = apply_add-IsPlaced queued 7 7 fresh-IsPlaced (omega arith)

tick-Ticked_example :
    (w : TimerWheel) × (tick (λ k. 1301) queued ≡ some w)
    × Ticked 1301 (drained (λ k. 1301) queued) w
tick-Ticked_example = tick-Ticked (λ k. 1301) queued queued-IsPlaced

cancel_timer-Cancelled_example :
    ((cancel_timer armed 7).0 ≡ true) × Cancelled 7 7 armed (cancel_timer armed 7).1
unfolding apply_add add_timer_to_wheel new_wheel timers new_timer arm_raw level_for distance
    slot_for
cancel_timer-Cancelled_example =
    cancel_timer-Cancelled armed 7 7 apply_add-IsPlaced_example (omega arith)
      (λ e. omega (arith, e)) refl refl (inl refl)

-- Due at 1003, so it goes through level 0 only, and is called in the tick that reads 1004.
abbrev soon : TimerWheel
unfolding new_wheel timers new_timer arm_raw
soon = record queued { timers = λ p. record (timers p) { expiry_time = 1003 } }

calls_of : Option TimerWheel → List (ℕ × ℕ)
calls_of none = []
calls_of (some w) = w.called

tick_calls : calls_of (tick (λ k. 1004) soon) ≡ (5, 9) ∷ []
unfolding calls_of tick drain apply_op apply_add dispose advance_by advance cascade process_slot
    process_from visit fire add_timer_to_wheel level_for slot_for distance swap_pop_at swap_pop
    moved_timers refresh_next_expiry update_next_expiry_time scan_levels scan_slots scan_bucket
    run_callbacks new_wheel new_timer arm_raw
tick_calls = refl

-- A timer of 2 ^ 32 + 2 ^ 24 ms that was set at the time 0, in the slot of level 3 that comes up
-- at the time 2 ^ 24.
abbrev far : TimerWheel
unfolding new_wheel timers new_timer arm_raw
far = record (new_wheel 4 (2 ^ 24) (λ p. record (timers p) { expiry_time = 2 ^ 32 + 2 ^ 24 })) {
  buckets = λ l s. if (l == 3) && (s == 1) then 7 ∷ [] else [];
}

far-IsFarAhead : IsFarAhead far 1 7 0 []
unfolding new_wheel timers new_timer arm_raw
far-IsFarAhead = record { first = refl; armed = refl; whole = refl; up = refl; ahead = refl }

process_from-IsFarAhead_example : process_from 1000000 0 far 3 1 ≡ none
unfolding new_wheel timers new_timer arm_raw
process_from-IsFarAhead_example = process_from-IsFarAhead 1000000 far 1 7 0 [] far-IsFarAhead

-- The wheel puts a new timer of that duration there.
far_slot : (level_for 3 0 (distance 0 (2 ^ 32 + 2 ^ 24)) ≡ 3) × (slot_for 0 (2 ^ 32 + 2 ^ 24) 3 ≡ 1)
unfolding level_for slot_for distance
far_slot = (refl, refl)
