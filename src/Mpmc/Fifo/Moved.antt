-- ===== src/Mpmc/Fifo/Moved.antt =====
-- `MPMCQueue`: each element goes to one consumer.
use uvent.Common.{ℕ, ◌^◌, ◌≤◌, ◌<◌, ◌≡◌}
use uvent.Mpmc.Steps.{
  Thread, outside, enq_at, enq_free, building, built, deq_at, deq_full, taking, moved, World,
}

-- The thread has the position.
abbrev pub Has : {A : Type 0} → Thread A → ℕ → Type 0
Has outside pos = ⊥
Has (enq_at q x) pos = ⊥
Has (enq_free q x) pos = ⊥
Has (building q x) pos = q ≡ pos
Has (built q x) pos = q ≡ pos
Has (deq_at q) pos = ⊥
Has (deq_full q) pos = ⊥
Has (taking q) pos = q ≡ pos
Has (moved q x) pos = q ≡ pos

module _ {A : Type 0} (k : ℕ) (two : 2 ≤ 2 ^ k) where
  -- What the positions handed out before have for elements stays.
  Keeps : World A → World A → Type 0
  Keeps v w =
      (v.queue.enq_pos ≤ w.queue.enq_pos)
      × ((pos : ℕ) → pos < v.queue.enq_pos → w.value pos ≡ v.value pos)
