-- ===== src/Mpmc/Fifo/Sizes.antt =====
-- `MPMCQueue`: what the queue answers about its size.
use native.Mathlib.Nat.{mod-eq_of_lt}
use uvent.Common.{
  ◌==◌, none, some, refl, ==_iff, ap, ◌∙◌, ℕ, ◌+◌, ◌-◌, ◌^◌, ◌≤◌, ◌<◌, ◌≡◌, arith, inl, inr,
  Bool-cases, leb, leb→le, leb-false→lt, length, if◌then◌else◌,
}
use uvent.Common.Bits.{u64}
use uvent.FastQueue.Window.{length-tabulate}
use uvent.Mpmc.{
  new_ring, size_round, size_relaxed, enq_claim, deq_claim, build_at, publish_at, release_at,
}
use uvent.Mpmc.Steps.{
  start, World, Step, enq_start, enq_look, enq_full, enq_late, enq_lose, enq_win, build_step,
  publish_step, deq_start, deq_look, deq_empty, deq_late, deq_lose, deq_win, move_step,
  release_step, Runs, done, next,
}
use uvent.Mpmc.Shared.{held}
use uvent.Mpmc.Fifo.{IsFifo}
use uvent.Mpmc.Fifo.Reached.{start-IsFifo, run-IsFifo}
use uvent.Mpmc.Fifo.Listed.{queued}

module _ {A : Type 0} (k : ℕ) (two : 2 ≤ 2 ^ k) where
  bounds :
      (v : World A)
      → IsFifo k v
      → (v.queue.deq_pos ≤ v.queue.enq_pos) × (v.queue.enq_pos ≤ v.queue.deq_pos + 2 ^ k)
  bounds v f =
      held (2 ^ k) v.queue.enq_pos v.queue.deq_pos v.queue.seq v.queue.storage v.life v.value two
        f.going.0

  front_later : {v w : World A} → IsFifo k v → Step v w → v.queue.deq_pos ≤ w.queue.deq_pos
  unfolding enq_claim deq_claim build_at publish_at release_at
  front_later f (enq_start t x v at_pos) = omega arith
  front_later f (enq_look t pos x v at_pos d) = omega arith
  front_later f (enq_full t pos x v at_pos d) = omega arith
  front_later f (enq_late t pos x v at_pos d) = omega arith
  front_later f (enq_lose t pos x v at_pos) = omega arith
  front_later f (enq_win t pos x v at_pos same room) = omega arith
  front_later f (build_step t pos x v at_pos) = omega arith
  front_later f (publish_step t pos x v at_pos) = omega arith
  front_later f (deq_start t v at_pos) = omega arith
  front_later f (deq_look t pos v at_pos d) = omega arith
  front_later f (deq_empty t pos v at_pos d) = omega arith
  front_later f (deq_late t pos v at_pos d) = omega arith
  front_later f (deq_lose t pos v at_pos) = omega arith
  front_later f (deq_win t pos v at_pos same) =
      let next : u64 (v.queue.deq_pos + 1) ≡ v.queue.deq_pos + 1 =
        mod-eq_of_lt (omega (arith, f.small, (bounds v f).0, two)) in
      omega (arith, next)
  front_later f (move_step t pos v at_pos) = omega arith
  front_later f (release_step t pos x v at_pos) = omega arith

  -- The front never goes back.
  front_run : {v w : World A} → IsFifo k v → Runs v w → v.queue.deq_pos ≤ w.queue.deq_pos
  front_run f (done _) = omega arith
  front_run f (next r s) = omega (arith, front_run f r, front_later (run-IsFifo k two f r) s)

  -- The count of a load of the end at `v` and of the front at `w`.
  counted :
      (v w : World A)
      → IsFifo k v
      → IsFifo k w
      → v.queue.deq_pos ≤ w.queue.deq_pos
      → size_relaxed v.queue w.queue ≡ (
          if leb (w.queue.deq_pos - v.queue.deq_pos) (length (queued v))
          then length (queued v) - (w.queue.deq_pos - v.queue.deq_pos)
          else 2 ^ k)
  unfolding size_relaxed
  counted v w f g later =
      let e = v.queue.enq_pos in
      let d = w.queue.deq_pos in
      let b = bounds v f in
      let c = bounds w g in
      let long : length (queued v) ≡ e - v.queue.deq_pos =
        length-tabulate v.value v.queue.deq_pos (e - v.queue.deq_pos) in
      elim (Bool-cases (leb (d - v.queue.deq_pos) (length (queued v)))) [
        | inl z ↦
            let before : d ≤ e = omega (arith, leb→le _ _ z, long, later, b.0) in
            let diff : u64 (e + 2 ^ 64 - d) ≡ e - d = omega (arith, before, f.small) in
            rw (z, diff) (ground (arith, before, later, long, b.0, b.1, f.capacity_is))
        | inr z ↦
            let past : e < d = omega (arith, leb-false→lt _ _ z, long, later, b.0) in
            let diff : u64 (e + 2 ^ 64 - d) ≡ e + 2 ^ 64 - d = omega (arith, past, c.0, g.small) in
            rw (z, diff) (ground (arith, past, c.0, g.small, f.capacity_is))
      ]

  -- For a queue of `2^k` cells, at least two and fewer than `2^64`, whose positions have not wrapped,
  -- whatever the threads do before and between the loads: `size_relaxed` is the number of elements queued at
  -- its first load less the number taken until its second, or the capacity if more were taken than had been
  -- queued; and `size` returns from a round exactly when nothing was taken in it, and then what was queued at
  -- its load of the end.
  pub run-size_relaxed :
      (raw initial : ℕ → A) {u v w : World A}
      → 2 ^ k < 2 ^ 64
      → Runs (start (new_ring k raw) initial) u
      → Runs u v
      → Runs v w
      → (size_relaxed v.queue w.queue ≡ (
          if leb (w.queue.deq_pos - v.queue.deq_pos) (length (queued v))
          then length (queued v) - (w.queue.deq_pos - v.queue.deq_pos)
          else 2 ^ k))
        × (size_round u.queue v.queue w.queue
            ≡ (if u.queue.deq_pos == w.queue.deq_pos then some (length (queued v)) else none))
  unfolding size_round size_relaxed
  run-size_relaxed raw initial {u} {v} {w} fits r s t =
      let f = run-IsFifo k two (start-IsFifo k two raw initial fits) r in
      let g = run-IsFifo k two f s in
      let h = run-IsFifo k two g t in
      let before = front_run f s in
      let after = front_run g t in
      let count = counted v w g h after in
      (
        count,
        elim (Bool-cases (u.queue.deq_pos == w.queue.deq_pos)) [
          | inl z ↦
              let none_taken : w.queue.deq_pos - v.queue.deq_pos ≡ 0 =
                omega (arith, (==_iff u.queue.deq_pos w.queue.deq_pos).0 z, before, after) in
              let whole : (if leb (w.queue.deq_pos - v.queue.deq_pos) (length (queued v))
                    then length (queued v) - (w.queue.deq_pos - v.queue.deq_pos)
                    else 2 ^ k)
                  ≡ length (queued v) =
                rw (none_taken) (ground arith) in
              rw (z) (ap some (count ∙ whole))
          | inr z ↦ rw (z) refl
        ],
      )
