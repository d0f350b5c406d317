-- ===== src/Mpmc.antt =====
-- `MPMCQueue` of include/uvent/utils/datastructures/queue/ConcurrentQueues.h: a ring between several
-- producers and consumers, by the sequence number of each cell. A prefetch has no effect and is left out;
-- the capacity is a power of two, as `next_pow2` gives it.
pub mod Steps
mod Cells
mod Shared
mod Claims
mod Threads
pub mod Fifo
mod Tests
use Prim.Native.Nat.{bit_and}
use uvent.Common.{Option, ltb, true, false, ℕ, ◌+◌, ◌-◌, ◌^◌, Bool, leb, ◌==◌, if◌then◌else◌}
use uvent.Common.Bits.{u64}
use uvent.Common.Memory.{update}

-- The cells' numbers and storage are functions of the index.
pub record MpmcQueue (A : Type 0) : Type 0 where
  pub capacity : ℕ
  pub mask : ℕ
  pub seq : ℕ → ℕ
  pub storage : ℕ → A
  pub enq_pos : ℕ
  pub deq_pos : ℕ

-- The sign of the difference of two `size_t` as `intptr_t`.
pub data Sign : Type 0 where
  negative none positive : Sign

unfoldable pub dif : ℕ → ℕ → Sign
dif seq pos =
    let d = u64 (seq + 2 ^ 64 - pos) in
    if d == 0 then Sign.none else if leb (2 ^ 63) d then Sign.negative else Sign.positive

module _ {A : Type 0} where
  -- The constructor for a capacity of `2^k`, over what the new memory holds.
  abbrev pub new_ring : ℕ → (ℕ → A) → MpmcQueue A
  new_ring k raw = record {
    capacity = 2 ^ k;
    mask = 2 ^ k - 1;
    seq = λ i. i;
    storage = raw;
    enq_pos = 0;
    deq_pos = 0;
  }

  abbrev pub cell_at : MpmcQueue A → ℕ → ℕ
  cell_at q pos = bit_and pos q.mask

  -- The parts of `do_enqueue`: its test, its exchange when it succeeds, the construction of the element,
  -- and the store of the number.
  unfoldable pub enq_dif : MpmcQueue A → ℕ → Sign
  enq_dif q pos = dif (q.seq (cell_at q pos)) pos

  unfoldable pub enq_claim : MpmcQueue A → MpmcQueue A
  enq_claim q = record q { enq_pos = u64 (q.enq_pos + 1) }

  unfoldable pub build_at : ℕ → A → MpmcQueue A → MpmcQueue A
  build_at pos x q = record q { storage = update q.storage (cell_at q pos) x }

  unfoldable pub publish_at : ℕ → MpmcQueue A → MpmcQueue A
  publish_at pos q = record q { seq = update q.seq (cell_at q pos) (u64 (pos + 1)) }

  -- The parts of `try_dequeue`, likewise, with the move of the element.
  unfoldable pub deq_dif : MpmcQueue A → ℕ → Sign
  deq_dif q pos = dif (q.seq (cell_at q pos)) (u64 (pos + 1))

  unfoldable pub deq_claim : MpmcQueue A → MpmcQueue A
  deq_claim q = record q { deq_pos = u64 (q.deq_pos + 1) }

  unfoldable pub move_from : ℕ → MpmcQueue A → A
  move_from pos q = q.storage (cell_at q pos)

  unfoldable pub release_at : ℕ → MpmcQueue A → MpmcQueue A
  release_at pos q = record q { seq = update q.seq (cell_at q pos) (u64 (pos + q.capacity)) }

  -- `size_relaxed`, with the queue at its load of `enq_pos_` and at its load of `deq_pos_`.
  unfoldable pub size_relaxed : MpmcQueue A → MpmcQueue A → ℕ
  size_relaxed at_enq at_deq =
      let diff = u64 (at_enq.enq_pos + 2 ^ 64 - at_deq.deq_pos) in
      if ltb at_enq.capacity diff then at_enq.capacity else diff

  -- One round of the loop of `size`, with the queue at each of its three loads; `none` for another round.
  unfoldable pub size_round : MpmcQueue A → MpmcQueue A → MpmcQueue A → Option ℕ
  size_round first at_enq second =
      let diff = u64 (at_enq.enq_pos + 2 ^ 64 - second.deq_pos) in
      if first.deq_pos == second.deq_pos
      then Option.some (if ltb at_enq.capacity diff then at_enq.capacity else diff)
      else Option.none
