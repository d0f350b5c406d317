-- ===== src/Waiting/Channel/Tests.antt =====
-- The channels at concrete runs: a coroutine sleeps when an element comes, or a place.
use uvent.Common.{ℕ, refl, true, false, List, [], ◌∷◌, length}
use uvent.Waiting.{
  try_step, pushed, arming, World, Runs, start, push_step, attach_step, run_step, done, next,
}
use uvent.Waiting.Load.{load}
use uvent.Waiting.Kinds.{IsFed, IsSwept}
use uvent.Waiting.Channel.{
  new_channel, send_complete, AsyncChannel, receivers, senders, recv_blocks, send_blocks,
  try_enqueue, close, enqueue_op, FromReceiver,
}
use uvent.Waiting.Channel.Served.{channel, receivers-Served}
use uvent.Waiting.Channel.Senders.{free, senders-Served}
use uvent.Waiting.Unbounded.{
  UnboundedChannel, unbounded, unbounded_of, attach_recv, try_send_tuple, send_op, unbounded-Served,
}

abbrev sleeping : {S : Type 0} → S → World S
sleeping s = record {
  state = s;
  nodes = record { frame = 7; stage = arming } ∷ [];
  woken = [];
  budgets = [];
  sweeps = 0;
}

abbrev arriving : {S : Type 0} → S → World S
arriving s = record {
  state = s;
  nodes = record { frame = 7; stage = pushed } ∷ [];
  woken = [];
  budgets = [];
  sweeps = 0;
}

abbrev open_channel : List ℕ → AsyncChannel ℕ
open_channel xs = channel xs 4 false

abbrev element_sent : World (AsyncChannel ℕ)
element_sent = record (sleeping (open_channel (5 ∷ []))) { budgets = 1 ∷ [] }

to_element_sent : Runs (receivers ℕ) (start (open_channel [])) element_sent
unfolding recv_blocks try_enqueue
to_element_sent =
    next
      (next (next (done (start (open_channel []))) (push_step 7 (start (open_channel []))))
        (attach_step 7 [] [] (arriving (open_channel [])) refl))
      (run_step (enqueue_op 5) (sleeping (open_channel [])) tt)

receivers-Served_example :
    IsFed (length element_sent.state.items) (load element_sent)
    × IsSwept element_sent.state.closed (load element_sent)
receivers-Served_example = receivers-Served 1 to_element_sent

-- A full channel, which is closed while a sender sleeps.
abbrev sent_to : List ℕ → World (AsyncChannel ℕ)
sent_to xs = start (channel xs 2 false)

abbrev full_channel : AsyncChannel ℕ
full_channel = channel (5 ∷ 5 ∷ []) 2 false

abbrev closed_world : World (AsyncChannel ℕ)
closed_world = record (sleeping (channel (5 ∷ 5 ∷ []) 2 true)) { sweeps = 1 }

to_closed : Runs (senders ℕ 5) (start (new_channel 0)) closed_world
unfolding send_blocks send_complete try_enqueue close
to_closed =
    next
      (next
        (next
          (next (next (done (sent_to [])) (try_step (sent_to []))) (try_step (sent_to (5 ∷ []))))
          (push_step 7 (start full_channel)))
        (attach_step 7 [] [] (arriving full_channel) refl))
      (run_step FromReceiver.close_op (sleeping full_channel) tt)

senders-Served_example :
    IsFed (free closed_world.state) (load closed_world)
    × IsSwept closed_world.state.closed (load closed_world)
senders-Served_example = senders-Served 0 5 to_closed

abbrev unbounded_sent : World (UnboundedChannel ℕ)
unbounded_sent = record (sleeping (unbounded_of (5 ∷ []) false)) { budgets = 1 ∷ [] }

to_unbounded_sent : Runs (unbounded ℕ) (start (unbounded_of [] false)) unbounded_sent
unfolding attach_recv try_send_tuple
to_unbounded_sent =
    next
      (next
        (next (done (start (unbounded_of [] false))) (push_step 7 (start (unbounded_of [] false))))
        (attach_step 7 [] [] (arriving (unbounded_of [] false)) refl))
      (run_step (send_op 5) (sleeping (unbounded_of [] false)) tt)

unbounded-Served_example :
    IsFed (length unbounded_sent.state.items) (load unbounded_sent)
    × IsSwept unbounded_sent.state.closed (load unbounded_sent)
unbounded-Served_example = unbounded-Served to_unbounded_sent
