-- ===== src/Waiting/Channel.antt =====
-- include/uvent/sync/AsyncChannel.h: the bounded channel. The ring that it owns is a list with a capacity,
-- and an operation on it is one step, so no dequeue meets a cell that is taken and not yet published. A ring
-- of one cell, which does not refuse an element when it is full, is left out: a new channel has two or more. Receivers and senders wait in two lists, each side is a primitive,
-- and what the other side does are actions of it.
pub mod Served
pub mod Senders
mod Tests
use uvent.Common.{
  ◌^◌, ℕ, zero, suc, ◌+◌, ◌-◌, ◌≤◌, ◌≡◌, refl, sym, ap, ◌∙◌, subst, arith, Bool, true, false, not,
  ◌&&◌, Bool-cases, if◌then◌else◌, leb, Option, none, some, List, [], ◌∷◌, ◌++◌, length,
  length-append, ◌⊎◌, inl, inr,
}
use uvent.Waiting.{Wake, nobody, at_most, everybody, Gate, World, Runs, start}
use uvent.Waiting.Load.{load}
use uvent.Waiting.Served.{reachable-Served}
use uvent.Waiting.Kinds.{
  IsFed, IsSwept, IsCounting, IsOpening, Feeds, Opens, counting-IsServing, opening-IsServing,
}

abbrev pub is_some : {B : Type 0} → Option B → Bool
is_some none = false
is_some (some b) = true

pub record AsyncChannel (A : Type 0) : Type 0 where
  pub items : List A
  pub capacity : ℕ
  pub closed : Bool

module _ {A : Type 0} where
  -- The constructor, for a capacity that `next_pow2` makes `2^(k+1)`.
  abbrev pub new_channel : ℕ → AsyncChannel A
  new_channel k = record { items = []; capacity = 2 ^ (k + 1); closed = false }

  -- `queue_.try_enqueue` and `queue_.try_dequeue`, for a ring of two cells or more
  unfoldable pub try_enqueue : A → AsyncChannel A → Bool × AsyncChannel A
  try_enqueue x ch =
      if leb ch.capacity (length ch.items)
      then (false, ch)
      else (true, record ch { items = ch.items ++ x ∷ [] })

  unfoldable pub try_dequeue : AsyncChannel A → Option A × AsyncChannel A
  try_dequeue ch = elim ch.items [ [] ↦ (none, ch) | x ∷ xs ↦ (some x, record ch { items = xs }) ]

  abbrev pub is_empty : List A → Bool
  is_empty [] = true
  is_empty (x ∷ xs) = false

  abbrev closing : Bool → AsyncChannel A → Option (Option A) × AsyncChannel A
  closing true ch = (some none, ch)
  closing false ch = (none, ch)

  abbrev received : Option A × AsyncChannel A → Option (Option A) × AsyncChannel A
  received (some x, ch) = (some (some x), ch)
  received (none, ch) = closing (ch.closed && is_empty ch.items) ch

  -- `ChannelRecvOp::try_complete`: `none` when it is not complete, else its `out`.
  unfoldable pub recv_complete : AsyncChannel A → Option (Option A) × AsyncChannel A
  unfolding try_dequeue
  recv_complete ch = received (try_dequeue ch)

  abbrev sent : Bool × AsyncChannel A → Option Bool × AsyncChannel A
  sent (true, ch) = (some true, ch)
  sent (false, ch) = (none, ch)

  -- `ChannelSendOp::try_complete`, likewise
  unfoldable pub send_complete : A → AsyncChannel A → Option Bool × AsyncChannel A
  unfolding try_enqueue
  send_complete x ch = if ch.closed then (some false, ch) else sent (try_enqueue x ch)

  -- `attach_recv` and `attach_send` after they have pushed the waiter: whether they return true.
  unfoldable pub recv_blocks : AsyncChannel A → Bool
  recv_blocks ch = is_empty ch.items && not ch.closed

  unfoldable pub send_blocks : AsyncChannel A → Bool
  send_blocks ch = leb ch.capacity (length ch.items) && not ch.closed

  -- `close` up to its loops
  unfoldable pub close : AsyncChannel A → Wake × AsyncChannel A
  close ch = if ch.closed then (nobody, ch) else (everybody, record ch { closed = true })

  -- An operation that went through wakes one waiter of the other side.
  abbrev pub waking : Bool × AsyncChannel A → Wake × AsyncChannel A
  waking (true, ch) = (at_most 1, ch)
  waking (false, ch) = (nobody, ch)

  abbrev pub waking_some : Option A × AsyncChannel A → Wake × AsyncChannel A
  waking_some (some x, ch) = (at_most 1, ch)
  waking_some (none, ch) = (nobody, ch)

-- What the receivers meet: a `try_send` that has seen the channel open and enqueues, and `close`.
pub data FromSender (A : Type 0) : Type 0 where
  enqueue_op : A → FromSender A
  close_op : FromSender A

-- What the senders meet: a `try_recv`, and `close`.
pub data FromReceiver : Type 0 where
  dequeue_op close_op : FromReceiver

module _ {A : Type 0} where
  abbrev pub run_sender : FromSender A → AsyncChannel A → Wake × AsyncChannel A
  run_sender (enqueue_op x) ch = waking (try_enqueue x ch)
  run_sender close_op ch = close ch

  abbrev pub run_receiver : FromReceiver → AsyncChannel A → Wake × AsyncChannel A
  run_receiver dequeue_op ch = waking_some (try_dequeue ch)
  run_receiver close_op ch = close ch

abbrev pub receivers : Type 0 → Gate
receivers A = record {
  State = AsyncChannel A;
  Action = FromSender A;
  try_complete = λ ch. (is_some (recv_complete ch).0, (recv_complete ch).1);
  attach_blocks = recv_blocks;
  Allowed = λ op ch. Unit;
  run = run_sender;
}

-- The senders of one value each; which value it is has no effect on the waiting.
abbrev pub senders : (A : Type 0) → A → Gate
senders A x = record {
  State = AsyncChannel A;
  Action = FromReceiver;
  try_complete = λ ch. (is_some (send_complete x ch).0, (send_complete x ch).1);
  attach_blocks = send_blocks;
  Allowed = λ op ch. Unit;
  run = run_receiver;
}
