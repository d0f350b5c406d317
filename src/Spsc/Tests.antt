-- ===== src/Spsc/Tests.antt =====
-- `SPSCQueue` at a concrete run: an element is sent, and then the producer is about to build a second one
-- while the consumer is about to move the first one out.
use uvent.Common.{ℕ, refl, arith, [], ◌∷◌}
use uvent.Spsc.{SpscQueue, new_queue, construct, publish, is_full, is_empty}
use uvent.Spsc.Steps.{
  outside, has_room, has_built, away, has_seen, Ring, room_step, build_step, publish_step, see_step,
  Runs, done, next, start,
}
use uvent.Spsc.Fifo.{IsFifo, reachable-IsFifo}

abbrev fresh : SpscQueue ℕ
fresh = new_queue 2 (λ i. 0)

abbrev one_sent : Ring ℕ
one_sent = record {
  queue = publish (construct 5 fresh);
  producer = outside;
  consumer = away;
  sent = 5 ∷ [];
  received = [];
}

to_one_sent : Runs (start fresh) one_sent
unfolding is_full
to_one_sent =
    next
      (next (next (done (start fresh)) (room_step 5 (start fresh) refl refl))
        (build_step 5 (record (start fresh) { producer = has_room 5 }) refl))
      (publish_step 5 (record (start fresh) { queue = construct 5 fresh; producer = has_built 5 })
        refl)

abbrev both_inside : Ring ℕ
both_inside = record one_sent { producer = has_room 6; consumer = has_seen }

to_both_inside : Runs (start fresh) both_inside
unfolding is_full is_empty construct publish
to_both_inside =
    next (next to_one_sent (room_step 6 one_sent refl refl))
      (see_step (record one_sent { producer = has_room 6 }) refl refl)

reachable-IsFifo_example : IsFifo 2 (omega arith) both_inside
reachable-IsFifo_example = reachable-IsFifo 2 (omega arith) to_both_inside
