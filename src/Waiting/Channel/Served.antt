-- ===== src/Waiting/Channel/Served.antt =====
-- AsyncChannel.h: no wake-up is lost, for receivers and for senders.
use uvent.Common.{
  ℕ, ◌-◌, ◌≡◌, refl, arith, Bool, true, false, not, ◌&&◌, Bool-cases, leb, List, [], ◌∷◌, length,
  length-append, inl, inr,
}
use uvent.Waiting.{nobody, at_most, World, Runs, start}
use uvent.Waiting.Load.{load}
use uvent.Waiting.Served.{reachable-Served}
use uvent.Waiting.Kinds.{
  IsFed, IsSwept, IsCounting, IsOpening, Feeds, Opens, counting-IsServing, opening-IsServing,
}
use uvent.Waiting.Channel.{
  new_channel, AsyncChannel, try_enqueue, try_dequeue, recv_complete, recv_blocks, close, waking,
  is_empty, FromSender, enqueue_op, run_sender, receivers,
}

module _ {A : Type 0} where
  -- What a receiver that waits can get.
  abbrev waiting_items : AsyncChannel A → ℕ
  waiting_items ch = length ch.items

  recv_blocks-Opens :
      (xs : List A) (b : Bool) → is_empty xs && not b ≡ true → (length xs ≡ 0) × (b ≡ false)
  recv_blocks-Opens [] true e = absurd (ground (arith, e))
  recv_blocks-Opens [] false e = (refl, refl)
  recv_blocks-Opens (x ∷ xs) b e = absurd (ground (arith, e))

  abbrev pub channel : List A → ℕ → Bool → AsyncChannel A
  channel xs n b = record { items = xs; capacity = n; closed = b }

  KeepsRecv : AsyncChannel A → Type 0
  KeepsRecv ch =
      (length (recv_complete ch).1.items ≡ length ch.items - 1)
      × ((recv_complete ch).1.closed ≡ ch.closed)

  recv_complete-KeepsRecv : (xs : List A) (n : ℕ) (b : Bool) → KeepsRecv (channel xs n b)
  unfolding KeepsRecv recv_complete try_dequeue
  recv_complete-KeepsRecv [] n true = (refl, refl)
  recv_complete-KeepsRecv [] n false = (refl, refl)
  recv_complete-KeepsRecv (x ∷ xs) n b = (omega arith, refl)

  enqueue-Feeds :
      (x : A) (ch : AsyncChannel A)
      → Feeds
          (length ch.items)
          (waking (try_enqueue x ch)).0
          (length (waking (try_enqueue x ch)).1.items)
  unfolding try_enqueue
  enqueue-Feeds x ch = elim (Bool-cases (leb ch.capacity (length ch.items))) [
    | inl e ↦ rw (e) (omega arith)
    | inr e ↦ rw (e) (omega (arith, length-append ch.items (x ∷ [])))
  ]

  enqueue-Opens :
      (x : A) (ch : AsyncChannel A)
      → Opens ch.closed (waking (try_enqueue x ch)).0 (waking (try_enqueue x ch)).1.closed
  unfolding try_enqueue
  enqueue-Opens x ch = elim (Bool-cases (leb ch.capacity (length ch.items))) [
    | inl e ↦ rw (e) (still_nobody ch.closed)
    | inr e ↦ rw (e) (still_one ch.closed)
  ]
    where
      still_nobody : (b : Bool) → Opens b nobody b
      still_nobody true = refl
      still_nobody false = tt

      still_one : (b : Bool) → Opens b (at_most 1) b
      still_one true = refl
      still_one false = tt

  close-Feeds :
      (xs : List A) (n : ℕ) (b : Bool)
      → let c = close (channel xs n b) in Feeds (length xs) c.0 (length c.1.items)
  unfolding close
  close-Feeds xs n true = omega arith
  close-Feeds xs n false = omega arith

  pub close-Opens :
      (xs : List A) (n : ℕ) (b : Bool) → let c = close (channel xs n b) in Opens b c.0 c.1.closed
  unfolding close
  close-Opens xs n true = refl
  close-Opens xs n false = tt

  receivers-IsCounting : IsCounting (receivers A) waiting_items
  unfolding recv_blocks KeepsRecv
  receivers-IsCounting = record {
    blocked = λ ch e. (recv_blocks-Opens ch.items ch.closed e).0;
    taken = λ ch. (recv_complete-KeepsRecv ch.items ch.capacity ch.closed).0;
    fed = fed;
  }
    where
      fed :
          (op : FromSender A) (ch : AsyncChannel A)
          → Unit {0}
          → Feeds (length ch.items) (run_sender op ch).0 (length (run_sender op ch).1.items)
      fed (enqueue_op x) ch u = enqueue-Feeds x ch
      fed FromSender.close_op ch u = close-Feeds ch.items ch.capacity ch.closed

  receivers-IsOpening : IsOpening (receivers A) (λ ch. ch.closed)
  unfolding recv_blocks KeepsRecv
  receivers-IsOpening = record {
    blocked = λ ch e. (recv_blocks-Opens ch.items ch.closed e).1;
    kept = λ ch. (recv_complete-KeepsRecv ch.items ch.capacity ch.closed).1;
    opens = opens;
  }
    where
      opens :
          (op : FromSender A) (ch : AsyncChannel A)
          → Unit {0}
          → Opens ch.closed (run_sender op ch).0 (run_sender op ch).1.closed
      opens (enqueue_op x) ch u = enqueue-Opens x ch
      opens FromSender.close_op ch u = close-Opens ch.items ch.capacity ch.closed

  -- However receivers wait and are cancelled while others send and close, of a new channel of capacity
  -- `2^(k+1)`, which is two or more: either no receiver sleeps, or for each element there is a receiver that
  -- was woken and will try, or a wake-up that is due; and if the channel is closed, none sleeps or `close`
  -- still wakes all.
  pub receivers-Served :
      (k : ℕ) {w : World (AsyncChannel A)}
      → Runs (receivers A) (start (new_channel k)) w
      → IsFed (length w.state.items) (load w) × IsSwept w.state.closed (load w)
  receivers-Served k r = (
    reachable-Served (receivers A) (λ ch l. IsFed (waiting_items ch) l)
        (counting-IsServing (receivers A) waiting_items receivers-IsCounting) (inl refl) r,
    reachable-Served (receivers A) (λ ch l. IsSwept ch.closed l)
        (opening-IsServing (receivers A) (λ ch. ch.closed) receivers-IsOpening) tt r,
  )
