-- ===== src/Mpmc/Fifo.antt =====
-- `MPMCQueue`: what holds of the whole queue between accesses.
mod Accesses
mod Owned
mod Reached
pub mod Listed
pub mod Moved
pub mod Sizes
use uvent.Common.{ℕ, ◌+◌, ◌-◌, ◌^◌, ◌<◌, ◌≡◌}
use uvent.Mpmc.Steps.{Thread, Life, World}
use uvent.Mpmc.Shared.{IsShared}
use uvent.Mpmc.Threads.{Knows}

-- The positions and the cells, and what every thread knows.
abbrev pub IsGoing :
    {A : Type 0} (m e d : ℕ) → (ℕ → ℕ) → (ℕ → A) → (ℕ → Life) → (ℕ → A) → (ℕ → Thread A) → Type 0
IsGoing m e d seq storage life value threads =
    IsShared m e d seq storage life value
    × ((t : ℕ) → Knows m e d seq storage life value t (threads t))

-- What holds between accesses, for a capacity of `2^k`.
pub record IsFifo {A : Type 0} (k : ℕ) (w : World A) : Type 0 where
  pub mask_is : w.queue.mask ≡ 2 ^ k - 1
  pub capacity_is : w.queue.capacity ≡ 2 ^ k
  pub small : w.queue.enq_pos + 2 ^ k < 2 ^ 64
  pub going :
      IsGoing
        (2 ^ k)
        w.queue.enq_pos
        w.queue.deq_pos
        w.queue.seq
        w.queue.storage
        w.life
        w.value
        w.threads
