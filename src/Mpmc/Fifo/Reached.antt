-- ===== src/Mpmc/Fifo/Reached.antt =====
-- `MPMCQueue`: what holds between accesses holds in every world that is reached.
use uvent.Common.{ℕ, ◌^◌, ◌≤◌, ◌<◌, refl, arith}
use uvent.Mpmc.{new_ring}
use uvent.Mpmc.Steps.{
  outside, enq_at, deq_at, World, Step, enq_start, enq_look, enq_full, enq_late, enq_lose, enq_win,
  build_step, publish_step, deq_start, deq_look, deq_empty, deq_late, deq_lose, deq_win, move_step,
  release_step, Runs, done, next, start,
}
use uvent.Mpmc.Fifo.{IsFifo}
use uvent.Mpmc.Fifo.Accesses.{
  quiet-IsFifo, enq_look-IsFifo, enq_win-IsFifo, deq_look-IsFifo, deq_win-IsFifo,
}
use uvent.Mpmc.Fifo.Owned.{build-IsFifo, publish-IsFifo, move-IsFifo, release-IsFifo}

module _ {A : Type 0} (k : ℕ) (two : 2 ≤ 2 ^ k) where
  pub Step-IsFifo : {v w : World A} → IsFifo k v → Step v w → IsFifo k w
  Step-IsFifo f (enq_start t x v at_pos) =
      quiet-IsFifo k two v f t (enq_at v.queue.enq_pos x) (omega arith)
  Step-IsFifo f (enq_look t pos x v at_pos d) = enq_look-IsFifo k two v f t pos x at_pos d
  Step-IsFifo f (enq_full t pos x v at_pos d) = quiet-IsFifo k two v f t outside tt
  Step-IsFifo f (enq_late t pos x v at_pos d) =
      quiet-IsFifo k two v f t (enq_at v.queue.enq_pos x) (omega arith)
  Step-IsFifo f (enq_lose t pos x v at_pos) =
      quiet-IsFifo k two v f t (enq_at v.queue.enq_pos x) (omega arith)
  Step-IsFifo f (enq_win t pos x v at_pos same room) =
      enq_win-IsFifo k two v f t pos x at_pos same room
  Step-IsFifo f (build_step t pos x v at_pos) = build-IsFifo k two v f t pos x at_pos
  Step-IsFifo f (publish_step t pos x v at_pos) = publish-IsFifo k two v f t pos x at_pos
  Step-IsFifo f (deq_start t v at_pos) =
      quiet-IsFifo k two v f t (deq_at v.queue.deq_pos) (omega arith)
  Step-IsFifo f (deq_look t pos v at_pos d) = deq_look-IsFifo k two v f t pos at_pos d
  Step-IsFifo f (deq_empty t pos v at_pos d) = quiet-IsFifo k two v f t outside tt
  Step-IsFifo f (deq_late t pos v at_pos d) =
      quiet-IsFifo k two v f t (deq_at v.queue.deq_pos) (omega arith)
  Step-IsFifo f (deq_lose t pos v at_pos) =
      quiet-IsFifo k two v f t (deq_at v.queue.deq_pos) (omega arith)
  Step-IsFifo f (deq_win t pos v at_pos same) = deq_win-IsFifo k two v f t pos at_pos same
  Step-IsFifo f (move_step t pos v at_pos) = move-IsFifo k two v f t pos at_pos
  Step-IsFifo f (release_step t pos x v at_pos) = release-IsFifo k two v f t pos x at_pos

  pub start-IsFifo :
      (raw initial : ℕ → A) → 2 ^ k < 2 ^ 64 → IsFifo k (start (new_ring k raw) initial)
  start-IsFifo raw initial fits = record {
    mask_is = refl;
    capacity_is = refl;
    small = omega (arith, fits);
    going = (
      record {
        enqueued = λ i p. absurd (omega (arith, p));
        unused = λ i p. refl;
        dequeued = λ i p. absurd (omega (arith, p));
        waiting = λ i p. omega arith;
        past = λ i p. absurd (omega (arith, p));
        numbers = λ i p q. absurd (omega (arith, p));
        initial = λ i p q. refl;
        kept = λ i p q. absurd (omega (arith, p));
      },
      λ t. tt,
    );
  }

  pub run-IsFifo : {v w : World A} → IsFifo k v → Runs v w → IsFifo k w
  run-IsFifo f (done _) = f
  run-IsFifo f (next r s) = Step-IsFifo (run-IsFifo f r) s
