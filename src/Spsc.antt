-- ===== src/Spsc.antt =====
-- `SPSCQueue` of include/uvent/utils/datastructures/queue/ConcurrentQueues.h: a ring between one producer
-- and one consumer. A prefetch has no effect and is left out; the capacity is a power of two, as
-- `next_pow2` gives it.
pub mod Steps
mod Ring
mod Produce
pub mod Size
pub mod Fifo
mod Tests
use Prim.Native.Nat.{bit_and}
use uvent.Common.{ℕ, ◌+◌, ◌-◌, ◌^◌, Bool, true, false, Option, none, some, ◌==◌, if◌then◌else◌}
use uvent.Common.Bits.{u64}
use uvent.Common.Memory.{update}

pub record SpscQueue {ℓ} (A : Type ℓ) : Type ℓ where
  pub mask : ℕ
  pub buf : ℕ → A
  pub head : ℕ
  pub tail : ℕ

module _ {ℓ} {A : Type ℓ} where
  -- The constructor for a capacity of `2^k`, over what the new memory holds.
  abbrev pub new_queue : ℕ → (ℕ → A) → SpscQueue A
  new_queue k raw = record { mask = 2 ^ k - 1; buf = raw; head = 0; tail = 0 }

  abbrev pub next_tail : SpscQueue A → ℕ
  next_tail q = bit_and (u64 (q.tail + 1)) q.mask

  -- The parts of `emplace`: its test, the construction of the element, and the store of `tail_`.
  unfoldable pub is_full : SpscQueue A → Bool
  is_full q = next_tail q == q.head

  unfoldable pub construct : A → SpscQueue A → SpscQueue A
  construct x q = record q { buf = update q.buf q.tail x }

  unfoldable pub publish : SpscQueue A → SpscQueue A
  publish q = record q { tail = next_tail q }

  -- `empty`, and the test of `try_dequeue`; then its read of the element, and the store of `head_`.
  unfoldable pub is_empty : SpscQueue A → Bool
  is_empty q = q.head == q.tail

  unfoldable pub front : SpscQueue A → A
  front q = q.buf q.head

  unfoldable pub advance : SpscQueue A → SpscQueue A
  advance q = record q { head = bit_and (u64 (q.head + 1)) q.mask }

  -- `size_relaxed`
  unfoldable pub size_relaxed : SpscQueue A → ℕ
  size_relaxed q = bit_and (u64 (q.tail + 2 ^ 64 - q.head)) q.mask
