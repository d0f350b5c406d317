-- ===== src/Barrier.antt =====
-- include/uvent/sync/AsyncBarrier.h: the barrier of coroutines. An arrival runs under the spin lock
-- and is one step; the intrusive stack of nodes is a list of the coroutines, the newest first.
pub mod Round
mod Tests
use uvent.Common.{ℕ, suc, ◌+◌, Bool, true, false, List, [], ◌∷◌, ◌==◌, if◌then◌else◌}
use uvent.Common.Bits.{u64}

pub record AsyncBarrier : Type 0 where
  pub parties : ℕ
  pub arrived : ℕ
  pub waiters : List ℕ

-- What an arrival leads to: whether it suspends, and the coroutines that are resumed in order.
pub record Arrival : Type 0 where
  pub suspends : Bool
  pub resumed : List ℕ
  pub barrier : AsyncBarrier

-- `await_suspend` of the coroutine `h`.
unfoldable pub arrive : AsyncBarrier → ℕ → Arrival
arrive b h =
    let n = u64 (b.arrived + 1) in
    if n == b.parties
    then (record {
      suspends = false;
      resumed = b.waiters;
      barrier = record b { arrived = 0; waiters = [] };
    })
    else (record {
      suspends = true;
      resumed = [];
      barrier = record b { arrived = n; waiters = h ∷ b.waiters };
    })

-- Arrivals one after the other; the last one first in the list of the coroutines.
unfoldable pub arrive_all : AsyncBarrier → List ℕ → AsyncBarrier
arrive_all b [] = b
arrive_all b (h ∷ hs) = (arrive (arrive_all b hs) h).barrier

-- `AsyncBarrier`
abbrev pub new_barrier : ℕ → AsyncBarrier
new_barrier parties = record { parties = parties; arrived = 0; waiters = [] }
