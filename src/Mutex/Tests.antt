-- ===== src/Mutex/Tests.antt =====
-- AsyncMutex.cpp: one coroutine locks, two wait, one of these is cancelled, the other is handed the lock.
use uvent.Common.{refl, true, [], ◌∷◌}
use uvent.Mutex.{
  World, Runs, done, next, start, try_step, attach_step, cancel_step, unlock_step, try_lock_raw,
  attach, cancel, remove_from, unlock,
}
use uvent.Mutex.Exclusive.{IsExclusive, reachable-IsExclusive}

abbrev contended : World
contended = record { mutex = record { locked = true; waiters = 2 ∷ [] }; owners = 3 ∷ [] }

to_contended : Runs start contended
unfolding try_lock_raw attach cancel remove_from unlock
to_contended =
    next
      (next
        (next (next (next (next (done _) (try_step 1 _)) (attach_step 4 _)) (attach_step 3 _))
          (attach_step 2 _))
        (cancel_step 4 _))
      (unlock_step 1 [] [] _ refl)

reachable-IsExclusive_example : IsExclusive contended
reachable-IsExclusive_example = reachable-IsExclusive to_contended
