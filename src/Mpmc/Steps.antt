-- ===== src/Mpmc/Steps.antt =====
-- `MPMCQueue`: its threads as an interleaving of their accesses.
use uvent.Common.{ℕ, ◌+◌, ◌^◌, ◌<◌, ◌≡◌}
use uvent.Common.Memory.{update}
use uvent.Mpmc.{
  MpmcQueue, Sign, enq_dif, enq_claim, build_at, publish_at, deq_dif, deq_claim, move_from,
  release_at,
}

-- How far a thread is, with its local `pos` and the element that it enqueues or has moved out.
pub data Thread (A : Type 0) : Type 0 where
  outside : Thread A
  -- in `do_enqueue`: `pos` is loaded; the cell's number was `pos`; the exchange has succeeded; the element
  -- is built
  enq_at enq_free building built : ℕ → A → Thread A
  -- in `try_dequeue`: the same, and the element is moved out
  deq_at deq_full taking : ℕ → Thread A
  moved : ℕ → A → Thread A

-- What has become of a position: not handed out; handed to the producer `t`; its element is there; handed
-- to the consumer `t`; given back.
pub data Life : Type 0 where
  fresh full gone : Life
  writing reading : ℕ → Life

-- The queue and its threads, with the life of each position and the element that its producer brought.
pub record World (A : Type 0) : Type 0 where
  pub queue : MpmcQueue A
  pub threads : ℕ → Thread A
  pub life : ℕ → Life
  pub value : ℕ → A

module _ {A : Type 0} where
  -- The thread `t` goes on, and the queue is `q`.
  abbrev pub go : ℕ → Thread A → MpmcQueue A → World A → World A
  go t p q w = record w { queue = q; threads = update w.threads t p }

-- One access of the thread `t`. A weak exchange may fail at any time; it then loads the position. The
-- position stays so small that it does not wrap, and neither does the number that is a capacity ahead.
pub data Step {A : Type 0} : World A → World A → Type 0 where
  enq_start :
      (t : ℕ) (x : A) (w : World A)
      → w.threads t ≡ outside
      → Step w (go t (enq_at w.queue.enq_pos x) w.queue w)
  enq_look :
      (t pos : ℕ) (x : A) (w : World A)
      → w.threads t ≡ enq_at pos x
      → enq_dif w.queue pos ≡ Sign.none
      → Step w (go t (enq_free pos x) w.queue w)
  enq_full :
      (t pos : ℕ) (x : A) (w : World A)
      → w.threads t ≡ enq_at pos x
      → enq_dif w.queue pos ≡ Sign.negative
      → Step w (go t outside w.queue w)
  enq_late :
      (t pos : ℕ) (x : A) (w : World A)
      → w.threads t ≡ enq_at pos x
      → enq_dif w.queue pos ≡ Sign.positive
      → Step w (go t (enq_at w.queue.enq_pos x) w.queue w)
  enq_lose :
      (t pos : ℕ) (x : A) (w : World A)
      → w.threads t ≡ enq_free pos x
      → Step w (go t (enq_at w.queue.enq_pos x) w.queue w)
  enq_win :
      (t pos : ℕ) (x : A) (w : World A)
      → w.threads t ≡ enq_free pos x
      → w.queue.enq_pos ≡ pos
      → pos + 1 + w.queue.capacity < 2 ^ 64
      → Step w (record (go t (building pos x) (enq_claim w.queue) w) {
        life = update w.life pos (writing t);
        value = update w.value pos x;
      })
  build_step :
      (t pos : ℕ) (x : A) (w : World A)
      → w.threads t ≡ building pos x
      → Step w (go t (built pos x) (build_at pos x w.queue) w)
  publish_step :
      (t pos : ℕ) (x : A) (w : World A)
      → w.threads t ≡ built pos x
      → Step w (record (go t outside (publish_at pos w.queue) w) { life = update w.life pos full })
  deq_start :
      (t : ℕ) (w : World A)
      → w.threads t ≡ outside
      → Step w (go t (deq_at w.queue.deq_pos) w.queue w)
  deq_look :
      (t pos : ℕ) (w : World A)
      → w.threads t ≡ deq_at pos
      → deq_dif w.queue pos ≡ Sign.none
      → Step w (go t (deq_full pos) w.queue w)
  deq_empty :
      (t pos : ℕ) (w : World A)
      → w.threads t ≡ deq_at pos
      → deq_dif w.queue pos ≡ Sign.negative
      → Step w (go t outside w.queue w)
  deq_late :
      (t pos : ℕ) (w : World A)
      → w.threads t ≡ deq_at pos
      → deq_dif w.queue pos ≡ Sign.positive
      → Step w (go t (deq_at w.queue.deq_pos) w.queue w)
  deq_lose :
      (t pos : ℕ) (w : World A)
      → w.threads t ≡ deq_full pos
      → Step w (go t (deq_at w.queue.deq_pos) w.queue w)
  deq_win :
      (t pos : ℕ) (w : World A)
      → w.threads t ≡ deq_full pos
      → w.queue.deq_pos ≡ pos
      → Step w (record (go t (taking pos) (deq_claim w.queue) w) {
        life = update w.life pos (reading t);
      })
  move_step :
      (t pos : ℕ) (w : World A)
      → w.threads t ≡ taking pos
      → Step w (go t (moved pos (move_from pos w.queue)) w.queue w)
  release_step :
      (t pos : ℕ) (x : A) (w : World A)
      → w.threads t ≡ moved pos x
      → Step w (record (go t outside (release_at pos w.queue) w) { life = update w.life pos gone })

pub data Runs {A : Type 0} : World A → World A → Type 0 where
  done : (w : World A) → Runs w w
  next : {u v w : World A} → Runs u v → Step v w → Runs u w

abbrev pub start : {A : Type 0} → MpmcQueue A → (ℕ → A) → World A
start q raw = record { queue = q; threads = λ t. outside; life = λ i. fresh; value = raw }
