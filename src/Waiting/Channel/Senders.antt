-- ===== src/Waiting/Channel/Senders.antt =====
-- AsyncChannel.h: no wake-up of a sender is lost.
use uvent.Common.{
  ℕ, ◌-◌, ◌≡◌, refl, arith, Bool, true, false, not, ◌&&◌, Bool-cases, leb, leb→le, List, [], ◌∷◌,
  length, length-append, inl, inr,
}
use uvent.Waiting.{World, Runs, start}
use uvent.Waiting.Load.{load}
use uvent.Waiting.Served.{reachable-Served}
use uvent.Waiting.Kinds.{
  IsFed, IsSwept, IsCounting, IsOpening, Feeds, Opens, counting-IsServing, opening-IsServing,
}
use uvent.Waiting.Channel.{
  new_channel, AsyncChannel, try_enqueue, try_dequeue, send_complete, send_blocks, close,
  waking_some, FromReceiver, dequeue_op, run_receiver, senders,
}
use uvent.Waiting.Channel.Served.{channel, close-Opens}

-- The places that a sender can fill. A closed channel keeps no sender waiting.
abbrev pub free_places : Bool → ℕ → ℕ → ℕ
free_places true n m = 0
free_places false n m = n - m

both_true : (a : Bool) → a && true ≡ true → a ≡ true
both_true true e = refl
both_true false e = e

blocked_full :
    (b : Bool) (n m : ℕ) → leb n m && not b ≡ true → (free_places b n m ≡ 0) × (b ≡ false)
blocked_full true n m e = absurd (never (leb n m) e)
  where
    never : (a : Bool) → a && false ≡ true → ⊥
    never true e = cc
    never false e = cc
blocked_full false n m e = (omega (arith, leb→le n m (both_true (leb n m) e)), refl)

module _ {A : Type 0} where
  abbrev pub free : AsyncChannel A → ℕ
  free ch = free_places ch.closed ch.capacity (length ch.items)

  KeepsSend : A → AsyncChannel A → Type 0
  KeepsSend x ch =
      (free (send_complete x ch).1 ≡ free ch - 1) × ((send_complete x ch).1.closed ≡ ch.closed)

  send_complete-KeepsSend : (x : A) (xs : List A) (n : ℕ) (b : Bool) → KeepsSend x (channel xs n b)
  unfolding KeepsSend send_complete try_enqueue
  send_complete-KeepsSend x xs n true = (refl, refl)
  send_complete-KeepsSend x xs n false = elim (Bool-cases (leb n (length xs))) [
    | inl e ↦ rw (e) (omega (arith, leb→le n (length xs) e), refl)
    | inr e ↦ rw (e) (omega (arith, length-append xs (x ∷ [])), refl)
  ]

  dequeue-Feeds :
      (xs : List A) (n : ℕ) (b : Bool)
      → let c = waking_some (try_dequeue (channel xs n b)) in
        Feeds (free_places b n (length xs)) c.0 (free c.1)
  unfolding try_dequeue
  dequeue-Feeds [] n true = omega arith
  dequeue-Feeds [] n false = omega arith
  dequeue-Feeds (x ∷ xs) n true = omega arith
  dequeue-Feeds (x ∷ xs) n false = omega arith

  dequeue-Opens :
      (xs : List A) (n : ℕ) (b : Bool)
      → let c = waking_some (try_dequeue (channel xs n b)) in Opens b c.0 c.1.closed
  unfolding try_dequeue
  dequeue-Opens [] n true = refl
  dequeue-Opens [] n false = tt
  dequeue-Opens (x ∷ xs) n true = refl
  dequeue-Opens (x ∷ xs) n false = tt

  close-free :
      (xs : List A) (n : ℕ) (b : Bool)
      → let c = close (channel xs n b) in Feeds (free_places b n (length xs)) c.0 (free c.1)
  unfolding close
  close-free xs n true = omega arith
  close-free xs n false = omega arith

  senders-IsCounting : (x : A) → IsCounting (senders A x) free
  unfolding send_blocks KeepsSend
  senders-IsCounting x = record {
    blocked = λ ch e. (blocked_full ch.closed ch.capacity (length ch.items) e).0;
    taken = λ ch. (send_complete-KeepsSend x ch.items ch.capacity ch.closed).0;
    fed = fed;
  }
    where
      fed :
          (op : FromReceiver) (ch : AsyncChannel A)
          → Unit {0}
          → Feeds (free ch) (run_receiver op ch).0 (free (run_receiver op ch).1)
      fed dequeue_op ch u = dequeue-Feeds ch.items ch.capacity ch.closed
      fed FromReceiver.close_op ch u = close-free ch.items ch.capacity ch.closed

  senders-IsOpening : (x : A) → IsOpening (senders A x) (λ ch. ch.closed)
  unfolding send_blocks KeepsSend
  senders-IsOpening x = record {
    blocked = λ ch e. (blocked_full ch.closed ch.capacity (length ch.items) e).1;
    kept = λ ch. (send_complete-KeepsSend x ch.items ch.capacity ch.closed).1;
    opens = opens;
  }
    where
      opens :
          (op : FromReceiver) (ch : AsyncChannel A)
          → Unit {0}
          → Opens ch.closed (run_receiver op ch).0 (run_receiver op ch).1.closed
      opens dequeue_op ch u = dequeue-Opens ch.items ch.capacity ch.closed
      opens FromReceiver.close_op ch u = close-Opens ch.items ch.capacity ch.closed

  -- However senders wait and are cancelled while others receive and close, of a new channel of capacity
  -- `2^(k+1)`, which is two or more: while it is open, either no sender sleeps, or for each free place there
  -- is a sender that was woken and will try, or a wake-up that is due; when it is closed, none sleeps or
  -- `close` still wakes all.
  pub senders-Served :
      (k : ℕ) {w : World (AsyncChannel A)} (x : A)
      → Runs (senders A x) (start (new_channel k)) w
      → IsFed (free w.state) (load w) × IsSwept w.state.closed (load w)
  senders-Served k x r = (
    reachable-Served (senders A x) (λ ch l. IsFed (free ch) l)
        (counting-IsServing (senders A x) free (senders-IsCounting x)) (inl refl) r,
    reachable-Served (senders A x) (λ ch l. IsSwept ch.closed l)
        (opening-IsServing (senders A x) (λ ch. ch.closed) (senders-IsOpening x)) tt r,
  )
