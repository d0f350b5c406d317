-- ===== src/Waiting/Unbounded.antt =====
-- include/uvent/sync/AsyncUnboundedChannel.h: the unbounded channel, for which only receivers wait. The
-- queue that it owns is a list, and an operation on it is one step.
use uvent.Common.{
  ◌-◌, ◌≡◌, refl, arith, Bool, true, false, not, ◌&&◌, if◌then◌else◌, Option, none, some, List, [],
  ◌∷◌, ◌++◌, length, length-append, inl,
}
use uvent.Waiting.{Wake, nobody, at_most, everybody, Gate, World, Runs, start}
use uvent.Waiting.Load.{load}
use uvent.Waiting.Served.{reachable-Served}
use uvent.Waiting.Kinds.{
  IsFed, IsSwept, IsCounting, IsOpening, Feeds, Opens, counting-IsServing, opening-IsServing,
}

pub record UnboundedChannel (A : Type 0) : Type 0 where
  pub items : List A
  pub closed : Bool

module _ {A : Type 0} where
  -- `try_send_tuple`: what it returns and wakes, and the channel.
  unfoldable pub try_send_tuple : A → UnboundedChannel A → Bool × Wake × UnboundedChannel A
  try_send_tuple x ch =
      if ch.closed
      then (false, nobody, ch)
      else (true, at_most 1, record ch { items = ch.items ++ x ∷ [] })

  -- `try_recv`
  unfoldable pub try_recv : UnboundedChannel A → Option A × UnboundedChannel A
  try_recv ch = elim ch.items [ [] ↦ (none, ch) | x ∷ xs ↦ (some x, record ch { items = xs }) ]

  abbrev completed : Option A × UnboundedChannel A → Bool × UnboundedChannel A
  completed (some x, ch) = (true, ch)
  completed (none, ch) = (ch.closed, ch)

  -- `ChannelRecvOp::try_complete`: a queue that `try_recv` has found empty is empty.
  unfoldable pub recv_done : UnboundedChannel A → Bool × UnboundedChannel A
  unfolding try_recv
  recv_done ch = completed (try_recv ch)

  abbrev none_left : List A → Bool
  none_left [] = true
  none_left (x ∷ xs) = false

  -- `attach_recv` after it has pushed the waiter: whether it returns true.
  unfoldable pub attach_recv : UnboundedChannel A → Bool
  attach_recv ch = none_left ch.items && not ch.closed

  -- `close` up to its loop
  unfoldable pub close_all : UnboundedChannel A → Wake × UnboundedChannel A
  close_all ch = if ch.closed then (nobody, ch) else (everybody, record ch { closed = true })

-- A `try_send` that has seen the channel open enqueues whether or not it is closed meanwhile.
pub data UnboundedOp (A : Type 0) : Type 0 where
  send_op : A → UnboundedOp A
  late_send : A → UnboundedOp A
  close_op : UnboundedOp A

module _ {A : Type 0} where
  abbrev pub run_unbounded : UnboundedOp A → UnboundedChannel A → Wake × UnboundedChannel A
  run_unbounded (send_op x) ch = ((try_send_tuple x ch).1, (try_send_tuple x ch).2)
  run_unbounded (late_send x) ch = (at_most 1, record ch { items = ch.items ++ x ∷ [] })
  run_unbounded close_op ch = close_all ch

abbrev pub unbounded : Type 0 → Gate
unbounded A = record {
  State = UnboundedChannel A;
  Action = UnboundedOp A;
  try_complete = recv_done;
  attach_blocks = attach_recv;
  Allowed = λ op ch. Unit;
  run = run_unbounded;
}

module _ {A : Type 0} where
  abbrev pub unbounded_of : List A → Bool → UnboundedChannel A
  unbounded_of xs b = record { items = xs; closed = b }

  -- What an operation does to the elements and to whether the channel is closed.
  Blocks : List A → Bool → Type 0
  Blocks xs b = attach_recv (unbounded_of xs b) ≡ true → (length xs ≡ 0) × (b ≡ false)

  blocked_empty : (xs : List A) (b : Bool) → Blocks xs b
  unfolding Blocks attach_recv
  blocked_empty [] true e = absurd (ground (arith, e))
  blocked_empty [] false e = (refl, refl)
  blocked_empty (x ∷ xs) b e = absurd (ground (arith, e))

  Takes : UnboundedChannel A → Type 0
  Takes ch =
      (length (recv_done ch).1.items ≡ length ch.items - 1) × ((recv_done ch).1.closed ≡ ch.closed)

  recv_done-Takes : (xs : List A) (b : Bool) → Takes (unbounded_of xs b)
  unfolding Takes recv_done
  recv_done-Takes [] b = (refl, refl)
  recv_done-Takes (x ∷ xs) b = (omega arith, refl)

  Serves : UnboundedOp A → UnboundedChannel A → Type 0
  Serves op ch =
      let r = run_unbounded op ch in
      Feeds (length ch.items) r.0 (length r.1.items) × Opens ch.closed r.0 r.1.closed

  run-Serves : (op : UnboundedOp A) (xs : List A) (b : Bool) → Serves op (unbounded_of xs b)
  unfolding Serves try_send_tuple close_all
  run-Serves (send_op x) xs true = (omega arith, refl)
  run-Serves (send_op x) xs false = (omega (arith, length-append xs (x ∷ [])), tt)
  run-Serves (late_send x) xs true = (omega (arith, length-append xs (x ∷ [])), refl)
  run-Serves (late_send x) xs false = (omega (arith, length-append xs (x ∷ [])), tt)
  run-Serves close_op xs true = (omega arith, refl)
  run-Serves close_op xs false = (omega arith, tt)

  unbounded-IsCounting : IsCounting (unbounded A) (λ ch. length ch.items)
  unfolding Blocks Takes Serves
  unbounded-IsCounting = record {
    blocked = λ ch e. (blocked_empty ch.items ch.closed e).0;
    taken = λ ch. (recv_done-Takes ch.items ch.closed).0;
    fed = λ op ch u. (run-Serves op ch.items ch.closed).0;
  }

  unbounded-IsOpening : IsOpening (unbounded A) (λ ch. ch.closed)
  unfolding Blocks Takes Serves
  unbounded-IsOpening = record {
    blocked = λ ch e. (blocked_empty ch.items ch.closed e).1;
    kept = λ ch. (recv_done-Takes ch.items ch.closed).1;
    opens = λ op ch u. (run-Serves op ch.items ch.closed).1;
  }

  -- However receivers of an unbounded channel that starts empty and open wait and are cancelled while
  -- others send and close: either no receiver sleeps, or for each element there is a receiver that was
  -- woken and will try, or a wake-up that is due; and if the channel is closed, none sleeps or `close`
  -- still wakes all.
  pub unbounded-Served :
      {w : World (UnboundedChannel A)}
      → Runs (unbounded A) (start (unbounded_of [] false)) w
      → IsFed (length w.state.items) (load w) × IsSwept w.state.closed (load w)
  unbounded-Served r = (
    reachable-Served (unbounded A) (λ ch l. IsFed (length ch.items) l)
        (counting-IsServing (unbounded A) (λ ch. length ch.items) unbounded-IsCounting) (inl refl)
        r,
    reachable-Served (unbounded A) (λ ch l. IsSwept ch.closed l)
        (opening-IsServing (unbounded A) (λ ch. ch.closed) unbounded-IsOpening) tt r,
  )
