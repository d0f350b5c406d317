-- ===== src/Waiting/Event.antt =====
-- include/uvent/sync/AsyncEvent.h, as a primitive that coroutines wait for, with `Reset` as a parameter.
use uvent.Common.{ℕ, ◌-◌, ◌≡◌, refl, sym, ap, arith, Bool, true, false, not, if◌then◌else◌, inl}
use uvent.Waiting.{Wake, nobody, at_most, everybody, Gate, World, Runs, start}
use uvent.Waiting.Load.{load}
use uvent.Waiting.Served.{reachable-Served}
use uvent.Waiting.Kinds.{
  IsFed, IsSwept, IsCounting, IsOpening, Feeds, Opens, counting-IsServing, opening-IsServing,
}

pub data Reset : Type 0 where
  auto manual : Reset

-- `try_consume` on `set_`
unfoldable pub try_consume : Reset → Bool → Bool × Bool
try_consume Reset.auto is_set = if is_set then (true, false) else (false, false)
try_consume Reset.manual is_set = (is_set, is_set)

-- `WaitOp::attach` after it has pushed the waiter: whether it returns true.
unfoldable pub wait_blocks : Bool → Bool
wait_blocks is_set = not is_set

-- `set` up to its loop: `wake_one` or `wake_all`
unfoldable pub set : Reset → Bool → Wake × Bool
set r true = (nobody, true)
set Reset.auto false = (at_most 1, true)
set Reset.manual false = (everybody, true)

-- `reset`
unfoldable pub reset : Reset → Bool → Wake × Bool
reset Reset.auto is_set = (nobody, is_set)
reset Reset.manual is_set = (nobody, false)

pub data EventOp : Type 0 where
  set_op reset_op : EventOp

abbrev pub run_op : Reset → EventOp → Bool → Wake × Bool
run_op r set_op is_set = set r is_set
run_op r reset_op is_set = reset r is_set

abbrev pub event : Reset → Gate
event r = record {
  State = Bool;
  Action = EventOp;
  try_complete = try_consume r;
  attach_blocks = wait_blocks;
  Allowed = λ op is_set. Unit;
  run = run_op r;
}

abbrev pub one_if : Bool → ℕ
one_if true = 1
one_if false = 0

never_set : (b : Bool) → wait_blocks b ≡ true → b ≡ false
unfolding wait_blocks
never_set true e = sym e
never_set false e = refl

consumed : (b : Bool) → one_if (try_consume Reset.auto b).1 ≡ one_if b - 1
unfolding try_consume
consumed true = refl
consumed false = refl

auto-Feeds :
    (op : EventOp) (b : Bool)
    → Feeds (one_if b) (run_op Reset.auto op b).0 (one_if (run_op Reset.auto op b).1)
unfolding set reset
auto-Feeds set_op true = omega arith
auto-Feeds set_op false = omega arith
auto-Feeds reset_op b = omega arith

auto-IsCounting : IsCounting (event Reset.auto) one_if
auto-IsCounting = record {
  blocked = λ b e. ap one_if (never_set b e);
  taken = consumed;
  fed = λ op b a. auto-Feeds op b;
}

same_when_manual : (b : Bool) → (try_consume Reset.manual b).1 ≡ b
unfolding try_consume
same_when_manual b = refl

manual-Opens :
    (op : EventOp) (b : Bool) → Opens b (run_op Reset.manual op b).0 (run_op Reset.manual op b).1
unfolding set reset
manual-Opens set_op true = refl
manual-Opens set_op false = tt
manual-Opens reset_op b = tt

manual-IsOpening : IsOpening (event Reset.manual) (λ b. b)
manual-IsOpening = record {
  blocked = never_set;
  kept = same_when_manual;
  opens = λ op b a. manual-Opens op b;
}

-- However coroutines wait and are cancelled, and whatever is set and reset: while an event that resets
-- itself is set, either no coroutine sleeps, or one was woken and will try, or a wake-up is due.
pub event-IsFed :
    {b : Bool} {w : World Bool}
    → Runs (event Reset.auto) (start b) w
    → IsFed (one_if w.state) (load w)
event-IsFed r =
    reachable-Served (event Reset.auto) (λ s l. IsFed (one_if s) l)
      (counting-IsServing (event Reset.auto) one_if auto-IsCounting) (inl refl) r

-- While an event that is reset by hand is set, either no coroutine sleeps or a `set` still wakes all.
pub event-IsSwept :
    {b : Bool} {w : World Bool} → Runs (event Reset.manual) (start b) w → IsSwept w.state (load w)
event-IsSwept {b} r =
    reachable-Served (event Reset.manual) (λ s l. IsSwept s l)
      (opening-IsServing (event Reset.manual) (λ s. s) manual-IsOpening) (swept_empty b) r
  where
    swept_empty : (b : Bool) → IsSwept b (load (start b))
    swept_empty true = inl refl
    swept_empty false = tt
