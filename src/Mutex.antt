-- ===== src/Mutex.antt =====
-- include/uvent/sync/AsyncMutex.h and src/sync/AsyncMutex.cpp: the mutex of coroutines. The wait list
-- of include/uvent/sync/WaitList.h is a list of the attempts that wait, the oldest first; what runs
-- under its spin lock is one step, and an attempt stands for its node.
pub mod Exclusive
mod Tests
use uvent.Common.{
  ℕ, ◌≡◌, Bool, true, false, Option, none, some, List, [], ◌∷◌, ◌++◌, ◌==◌, if◌then◌else◌,
}

-- `state_` is 1 when locked.
pub record AsyncMutex : Type 0 where
  pub locked : Bool
  pub waiters : List ℕ

-- `try_lock_raw`
unfoldable pub try_lock_raw : AsyncMutex → Bool × AsyncMutex
try_lock_raw m = if m.locked then (false, m) else (true, record m { locked = true })

-- `push_locked`
abbrev pub push : AsyncMutex → ℕ → AsyncMutex
push m n = record m { waiters = m.waiters ++ n ∷ [] }

-- `await_suspend` under the lock of the list: whether the attempt acquired the mutex.
unfoldable pub attach : AsyncMutex → ℕ → Bool × AsyncMutex
attach m n = let tried = try_lock_raw m in if tried.0 then (true, tried.1) else (false, push m n)

-- `remove_locked` on the list.
unfoldable pub remove_from : ℕ → List ℕ → List ℕ
remove_from n [] = []
remove_from n (x ∷ xs) = let rest = remove_from n xs in if x == n then xs else x ∷ rest

-- `on_cancel`, and `await_suspend` when a cancellation is already requested.
unfoldable pub cancel : AsyncMutex → ℕ → AsyncMutex
cancel m n = record m { waiters = remove_from n m.waiters }

-- `unlock`: the attempt that is handed the mutex, if one waits.
unfoldable pub unlock : AsyncMutex → Option ℕ × AsyncMutex
unlock m = elim m.waiters [
  | [] ↦ (none, record m { locked = false })
  | w ∷ rest ↦ (some w, record m { waiters = rest })
]

-- The mutex with the attempts that own a `Guard`, or whose `await_resume` will make one.
pub record World : Type 0 where
  pub mutex : AsyncMutex
  pub owners : List ℕ

abbrev pub acquired : Bool × AsyncMutex → ℕ → List ℕ → World
acquired (true, m) n owners = record { mutex = m; owners = n ∷ owners }
acquired (false, m) n owners = record { mutex = m; owners = owners }

abbrev pub handed : Option ℕ × AsyncMutex → List ℕ → World
handed (none, m) owners = record { mutex = m; owners = owners }
handed (some w, m) owners = record { mutex = m; owners = w ∷ owners }

pub data Step : World → World → Type 0 where
  try_step : (n : ℕ) (w : World) → Step w (acquired (try_lock_raw w.mutex) n w.owners)
  attach_step : (n : ℕ) (w : World) → Step w (acquired (attach w.mutex n) n w.owners)
  cancel_step : (n : ℕ) (w : World) → Step w (record w { mutex = cancel w.mutex n })
  unlock_step :
      (n : ℕ) (before after : List ℕ) (w : World)
      → w.owners ≡ before ++ n ∷ after
      → Step w (handed (unlock w.mutex) (before ++ after))

pub data Runs : World → World → Type 0 where
  done : (w : World) → Runs w w
  next : {u v w : World} → Runs u v → Step v w → Runs u w

abbrev pub start : World
start = record { mutex = record { locked = false; waiters = [] }; owners = [] }
