-- ===== src/Waiting.antt =====
-- include/uvent/sync/Wait.h with WaitList.h and SyncCommon.h: how a coroutine waits for a primitive
-- (`Gate`) by `OpWait`, with the primitive's wakers and cancellation, as an interleaving of atomic
-- accesses. What runs under the spin lock of a wait list is one step, and the list of the nodes that
-- are linked, the oldest first, stands for it.
pub mod Load
pub mod Served
pub mod Kinds
pub mod Semaphore
pub mod Event
pub mod Group
pub mod Channel
pub mod Unbounded
mod Tests
use uvent.Common.{ℕ, suc, ◌-◌, ◌+◌, ◌≤◌, ◌≡◌, ◌≢◌, Bool, true, false, List, [], ◌∷◌, ◌++◌, ◌⊎◌}

-- How far the coroutine of a linked node is in `await_suspend`: it has pushed the node; `attach` has
-- returned false; `attach` has returned true; it is suspended with its cancel hook armed.
pub data Stage : Type 0 where
  pushed refused arming parked : Stage

-- `Waiter` with the frame of its coroutine.
pub record Node : Type 0 where
  pub frame : ℕ
  pub stage : Stage

-- How many waiters an operation goes on to wake.
pub data Wake : Type 0 where
  nobody everybody : Wake
  at_most : ℕ → Wake

-- A primitive: what `try_complete` does, whether `attach` lets the coroutine suspend, and the operations
-- that do not wait, with the states in which they may be called.
pub record Gate : Type 1 where
  pub State : Type 0
  pub Action : Type 0
  pub try_complete : State → Bool × State
  pub attach_blocks : State → Bool
  pub Allowed : Action → State → Type 0
  pub run : Action → State → Wake × State

-- The state with the linked nodes, the frames whose waiters were popped and fired and that will resume
-- and try again, how many more waiters each running `release` or `wake_one` may wake, and how many runs of
-- `wake_all` or `done` there are.
pub record World (S : Type 0) : Type 0 where
  pub state : S
  pub nodes : List Node
  pub woken : List ℕ
  pub budgets : List ℕ
  pub sweeps : ℕ

module _ {S : Type 0} where
  abbrev pub start_wake : Wake × S → World S → World S
  start_wake (nobody, s) w = record w { state = s }
  start_wake (at_most k, s) w = record w { state = s; budgets = k ∷ w.budgets }
  start_wake (everybody, s) w = record w { state = s; sweeps = w.sweeps + 1 }

abbrev pub attached : Bool → Stage
attached true = arming
attached false = refused

-- A coroutine that is outside may try and may push a node at any time, which is more than `acquire` and
-- `wait` do.
pub data Step (G : Gate) : World G.State → World G.State → Type 0 where
  try_step : (w : World G.State) → Step G w (record w { state = (G.try_complete w.state).1 })
  push_step :
      (f : ℕ) (w : World G.State)
      → Step G w (record w { nodes = w.nodes ++ record { frame = f; stage = pushed } ∷ [] })
  attach_step :
      (f : ℕ) (before after : List Node) (w : World G.State)
      → w.nodes ≡ before ++ record { frame = f; stage = pushed } ∷ after
      → Step G w (record w {
        nodes = before ++ record { frame = f; stage = attached (G.attach_blocks w.state) } ∷ after;
      })
  arm_step :
      (f : ℕ) (before after : List Node) (w : World G.State)
      → w.nodes ≡ before ++ record { frame = f; stage = arming } ∷ after
      → Step G w (record w { nodes = before ++ record { frame = f; stage = parked } ∷ after })
  -- `detach` of a node that is still linked: after `attach` returned false, at a cancellation that was
  -- requested before the hook was armed, and in `on_cancel`
  detach_step :
      (n : Node) (before after : List Node) (w : World G.State)
      → n.stage ≢ pushed
      → w.nodes ≡ before ++ n ∷ after
      → Step G w (record w { nodes = before ++ after })
  -- A woken coroutine tries again.
  retry_step :
      (f : ℕ) (before after : List ℕ) (w : World G.State)
      → w.woken ≡ before ++ f ∷ after
      → Step G w (record w { state = (G.try_complete w.state).1; woken = before ++ after })
  run_step :
      (op : G.Action) (w : World G.State)
      → G.Allowed op w.state
      → Step G w (start_wake (G.run op w.state) w)
  -- One round of the loop of `release` or of `wake_one`
  wake_step :
      (k : ℕ) (before after : List ℕ) (n : Node) (rest : List Node) (w : World G.State)
      → w.budgets ≡ before ++ suc k ∷ after
      → w.nodes ≡ n ∷ rest
      → Step G w
          (record w { nodes = rest; woken = n.frame ∷ w.woken; budgets = before ++ k ∷ after })
  stop_step :
      (k : ℕ) (before after : List ℕ) (w : World G.State)
      → w.budgets ≡ before ++ k ∷ after
      → (k ≡ 0) ⊎ (w.nodes ≡ [])
      → Step G w (record w { budgets = before ++ after })
  -- One round of the loop of `wake_all` or of `done`
  sweep_step :
      (n : Node) (rest : List Node) (w : World G.State)
      → 1 ≤ w.sweeps
      → w.nodes ≡ n ∷ rest
      → Step G w (record w { nodes = rest; woken = n.frame ∷ w.woken })
  end_sweep_step :
      (w : World G.State)
      → 1 ≤ w.sweeps
      → w.nodes ≡ []
      → Step G w (record w { sweeps = w.sweeps - 1 })

pub data Runs (G : Gate) : World G.State → World G.State → Type 0 where
  done : (w : World G.State) → Runs G w w
  next : {u v w : World G.State} → Runs G u v → Step G v w → Runs G u w

abbrev pub start : {S : Type 0} → S → World S
start s = record { state = s; nodes = []; woken = []; budgets = []; sweeps = 0 }
