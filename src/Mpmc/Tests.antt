-- ===== src/Mpmc/Tests.antt =====
-- `MPMCQueue` with two cells: the thread 0 enqueues 5, and the thread 1 dequeues it.
use uvent.Common.{none, ℕ, ◌^◌, ◌≡◌, refl, arith}
use uvent.Mpmc.{
  size_round, size_relaxed, dif, enq_dif, deq_dif, new_ring, enq_claim, deq_claim, build_at,
  publish_at, move_from,
}
use uvent.Mpmc.Steps.{
  outside, enq_at, enq_free, building, built, deq_at, deq_full, taking, moved, World, go, Step,
  enq_start, enq_look, enq_win, build_step, publish_step, deq_start, deq_look, deq_win, move_step,
  Runs, done, next, start, writing, full, reading,
}
use uvent.Common.Memory.{update}
use uvent.Mpmc.Fifo.Listed.{ListStep, reachable-ListStep}
use uvent.Mpmc.Fifo.Sizes.{run-size_relaxed}

abbrev zeros : ℕ → ℕ
zeros i = 0

abbrev world0 : World ℕ
world0 = start (new_ring 1 zeros) zeros

abbrev world1 : World ℕ
world1 = go 0 (enq_at world0.queue.enq_pos 5) world0.queue world0

abbrev world2 : World ℕ
world2 = go 0 (enq_free 0 5) world1.queue world1

abbrev world3 : World ℕ
world3 = record (go 0 (building 0 5) (enq_claim world2.queue) world2) {
  life = update world2.life 0 (writing 0);
  value = update world2.value 0 5;
}

abbrev world4 : World ℕ
world4 = go 0 (built 0 5) (build_at 0 5 world3.queue) world3

abbrev world5 : World ℕ
world5 = record (go 0 outside (publish_at 0 world4.queue) world4) {
  life = update world4.life 0 full;
}

abbrev world6 : World ℕ
world6 = go 1 (deq_at world5.queue.deq_pos) world5.queue world5

abbrev world7 : World ℕ
world7 = go 1 (deq_full 0) world6.queue world6

abbrev world8 : World ℕ
world8 = record (go 1 (taking 0) (deq_claim world7.queue) world7) {
  life = update world7.life 0 (reading 1);
}

abbrev world9 : World ℕ
world9 = go 1 (moved 0 (move_from 0 world8.queue)) world8.queue world8

to2 : Runs world0 world2
unfolding enq_dif dif
to2 = next (next (done world0) (enq_start 0 5 world0 refl)) (enq_look 0 0 5 world1 refl refl)

last3 : Step world2 world3
last3 = enq_win 0 0 5 world2 refl refl (omega arith)

to5 : Runs world0 world5
unfolding enq_claim build_at
to5 = next (next (next to2 last3) (build_step 0 0 5 world3 refl)) (publish_step 0 0 5 world4 refl)

to9 : Runs world5 world9
unfolding enq_claim build_at publish_at deq_dif dif deq_claim
to9 =
    next
      (next (next (next (done world5) (deq_start 1 world5 refl)) (deq_look 1 0 world6 refl refl))
        (deq_win 1 0 world7 refl refl))
      (move_step 1 0 world8 refl)

reachable-ListStep_example : ListStep (2 ^ 1) world2 world3
reachable-ListStep_example = reachable-ListStep 1 (omega arith) zeros zeros (omega arith) to2 last3

abbrev consumer : ℕ
consumer = 1

run-size_relaxed_example :
    (size_relaxed world5.queue world9.queue ≡ 0)
    × (size_round world5.queue world5.queue world9.queue ≡ none)
unfolding enq_claim build_at publish_at deq_claim
run-size_relaxed_example =
    run-size_relaxed 1 (omega arith) zeros zeros (omega arith) to5 (done world5) to9
