-- ===== src/Waiting/Tests.antt =====
-- Wait.h and the primitives at concrete runs.
use uvent.Common.{ℕ, refl, arith, Bool, true, false, List, [], ◌∷◌}
use uvent.Waiting.{
  pushed, arming, Node, World, Runs, start, push_step, attach_step, run_step, done, next,
}
use uvent.Waiting.Load.{load}
use uvent.Waiting.Kinds.{IsFed, IsSwept}
use uvent.Waiting.Semaphore.{semaphore, acquire_blocks, release, reachable-IsFed}
use uvent.Waiting.Event.{Reset, event, set, set_op, wait_blocks, one_if, event-IsFed, event-IsSwept}

abbrev sleeper : Node
sleeper = record { frame = 7; stage = arming }

abbrev fresh : Node
fresh = record { frame = 7; stage = pushed }

-- A coroutine sleeps, a unit is released and its wake-up is due.
abbrev due_world : World ℕ
due_world = record { state = 1; nodes = sleeper ∷ []; woken = []; budgets = 1 ∷ []; sweeps = 0 }

to_due : Runs semaphore (start 0) due_world
unfolding acquire_blocks release
to_due =
    next
      (next (next (done (start 0)) (push_step 7 (start 0))) (
        attach_step 7 [] []
          (record { state = 0; nodes = fresh ∷ []; woken = []; budgets = []; sweeps = 0 }) refl))
      (run_step 1 (record { state = 0; nodes = sleeper ∷ []; woken = []; budgets = []; sweeps = 0 })
        (omega arith))

reachable-IsFed_example : IsFed due_world.state (load due_world)
reachable-IsFed_example = reachable-IsFed to_due

-- The same for an event that is set.
abbrev set_world : World Bool
set_world = record { state = true; nodes = sleeper ∷ []; woken = []; budgets = 1 ∷ []; sweeps = 0 }

abbrev waiting_event : List Node → World Bool
waiting_event ns = record { state = false; nodes = ns; woken = []; budgets = []; sweeps = 0 }

to_set : Runs (event Reset.auto) (start false) set_world
unfolding wait_blocks set
to_set =
    next
      (next (next (done (start false)) (push_step 7 (start false)))
        (attach_step 7 [] [] (waiting_event (fresh ∷ [])) refl))
      (run_step set_op (waiting_event (sleeper ∷ [])) tt)

event-IsFed_example : IsFed (one_if set_world.state) (load set_world)
event-IsFed_example = event-IsFed to_set

abbrev swept_world : World Bool
swept_world = record { state = true; nodes = sleeper ∷ []; woken = []; budgets = []; sweeps = 1 }

to_swept : Runs (event Reset.manual) (start false) swept_world
unfolding wait_blocks set
to_swept =
    next
      (next (next (done (start false)) (push_step 7 (start false)))
        (attach_step 7 [] [] (waiting_event (fresh ∷ [])) refl))
      (run_step set_op (waiting_event (sleeper ∷ [])) tt)

event-IsSwept_example : IsSwept swept_world.state (load swept_world)
event-IsSwept_example = event-IsSwept to_swept

-- A group of one is done while a coroutine sleeps.
abbrev done_world : World ℕ
done_world = record { state = 0; nodes = sleeper ∷ []; woken = []; budgets = []; sweeps = 1 }

abbrev waiting_group : List Node → World ℕ
waiting_group ns = record { state = 1; nodes = ns; woken = []; budgets = []; sweeps = 0 }
