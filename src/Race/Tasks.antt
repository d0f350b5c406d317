-- ===== src/Race/Tasks.antt =====
-- HappyEyeballs.cpp: the tasks of a race as one system. Each critical section is one step, and the
-- steps of the parent, the attempts, the pacer and the resolvers interleave.
pub mod Sound
pub mod Steps
pub mod Attempts
pub mod Resolve
pub mod Reach
mod Tests
use uvent.Common.{
  zero, [], ◌∷◌, take, ltb, length, ℕ, suc, ◌+◌, ◌≡◌, Bool, true, false, Option, none, some, List,
  if◌then◌else◌,
}
use uvent.Race.{
  HeState, decided, await_suspend, launch_next, begin_attempt, end_attempt, pacer_stops, is_stalled,
  end_resolve, happy_start,
}

-- The parent: before `await_ready`, before `await_suspend`, suspended, or running on.
pub data Parent : Type 0 where
  arriving : Parent
  suspending : Parent
  waiting : Parent
  resumed : Parent

-- How many tasks stand where: attempts before their first section and in their connection, calls of
-- `launch_next` and `kick_if_stalled` under way, and resolvers; and whether the pacer runs.
pub record Tasks (A S E : Type 0) : Type 0 where
  pub st : HeState A S E
  pub parent : Parent
  pub starting : ℕ
  pub connecting : ℕ
  pub launching : ℕ
  pub kicking : ℕ
  pub resolvers : ℕ
  pub pacer : Bool

-- `resume_parent`, if there is a parent to wake.
abbrev pub wake : Bool → Parent → Parent
wake true p = Parent.resumed
wake false p = p

abbrev pub one_if : Bool → ℕ
one_if true = 1
one_if false = 0

abbrev pub one_if_some {ℓ} : {A : Type ℓ} → Option A → ℕ
one_if_some none = 0
one_if_some (some a) = 1

module _ {A : Type 0} where
  -- `connect_happy_addrs` before its race: `resize` when there is a limit.
  abbrev pub limited : ℕ → List A → List A
  limited zero addrs = addrs
  limited (suc m) addrs = take (suc m) addrs

module _ {A S E : Type 0} where
  -- `RaceAwaiter::await_ready`
  unfoldable pub ready : Tasks A S E → Tasks A S E
  ready r = record r { parent = if decided r.st then Parent.resumed else Parent.suspending }

  unfoldable pub suspend : Tasks A S E → Tasks A S E
  suspend r =
      let kept = await_suspend r.st in
      record r { st = kept.1; parent = if kept.0 then Parent.waiting else Parent.resumed }

  -- The steps below leave `n` tasks where there were `n + 1`.
  unfoldable pub launch : ℕ → Tasks A S E → Tasks A S E
  launch n r =
      let launched = launch_next r.st in
      record r { st = launched.1; launching = n; starting = r.starting + one_if_some launched.0 }

  unfoldable pub begin : ℕ → Tasks A S E → Tasks A S E
  begin n r =
      let begun = begin_attempt r.st in
      record r {
        st = begun.2;
        starting = n;
        connecting = r.connecting + (if begun.0 then 0 else 1);
        parent = wake begun.1 r.parent;
      }

  unfoldable pub finish : ℕ → Option E → S → Tasks A S E → Tasks A S E
  finish n err sock r =
      let outcome = end_attempt err sock r.st in
      record r {
        st = outcome.state;
        connecting = n;
        launching = r.launching + one_if outcome.launch_early;
        parent = wake outcome.to_wake r.parent;
      }

  unfoldable pub pace : Tasks A S E → Tasks A S E
  pace r =
      if pacer_stops r.st
      then (record r { pacer = false })
      else (record r { launching = r.launching + 1 })

  unfoldable pub resolve : ℕ → Bool → List A → Tasks A S E → Tasks A S E
  resolve n v6 found r =
      let kept = end_resolve v6 found r.st in
      record r {
        st = kept.1;
        resolvers = n;
        kicking = r.kicking + 1;
        parent = wake kept.0 r.parent;
      }

  unfoldable pub kick : ℕ → Tasks A S E → Tasks A S E
  kick n r = record r { kicking = n; launching = r.launching + one_if (is_stalled r.st) }

  pub data Step : Tasks A S E → Tasks A S E → Type 0 where
    ready_step : (r : Tasks A S E) → r.parent ≡ Parent.arriving → Step r (ready r)
    suspend_step : (r : Tasks A S E) → r.parent ≡ Parent.suspending → Step r (suspend r)
    launch_step : (n : ℕ) (r : Tasks A S E) → r.launching ≡ suc n → Step r (launch n r)
    begin_step : (n : ℕ) (r : Tasks A S E) → r.starting ≡ suc n → Step r (begin n r)
    finish_step :
        (n : ℕ) (err : Option E) (sock : S) (r : Tasks A S E)
        → r.connecting ≡ suc n
        → Step r (finish n err sock r)
    pace_step : (r : Tasks A S E) → r.pacer ≡ true → Step r (pace r)
    resolve_step :
        (n : ℕ) (v6 : Bool) (found : List A) (r : Tasks A S E)
        → r.resolvers ≡ suc n
        → Step r (resolve n v6 found r)
    kick_step : (n : ℕ) (r : Tasks A S E) → r.kicking ≡ suc n → Step r (kick n r)

  pub data Runs : Tasks A S E → Tasks A S E → Type 0 where
    done : (r : Tasks A S E) → Runs r r
    next : {r s t : Tasks A S E} → Runs r s → Step s t → Runs r t

  -- What `connect_happy` spawns.
  abbrev pub connect_happy : ℕ → Tasks A S E
  connect_happy max_attempts = record {
    st = happy_start max_attempts;
    parent = Parent.arriving;
    starting = 0;
    connecting = 0;
    launching = 0;
    kicking = 0;
    resolvers = 2;
    pacer = true;
  }

  -- A race for the addresses `a ∷ addrs`, whose first attempt is launched; the pacer is spawned only
  -- if there are others.
  abbrev pub first_launched : ℕ → A → List A → Tasks A S E
  first_launched max_attempts a addrs =
      let launched = launch_next (record (happy_start {A = A} {S = S} {E = E} max_attempts) {
        addrs = a ∷ addrs;
        resolves_pending = 0;
      }) in
      record {
        st = launched.1;
        parent = Parent.arriving;
        starting = one_if_some launched.0;
        connecting = 0;
        launching = 0;
        kicking = 0;
        resolvers = 0;
        pacer = ltb 1 (length (a ∷ addrs));
      }

  -- `connect_happy_addrs` up to the parent's wait, on the addresses that the limit leaves; `none` for
  -- the error on no addresses.
  abbrev pub race_for : ℕ → List A → Option (Tasks A S E)
  race_for max_attempts [] = none
  race_for max_attempts (a ∷ addrs) = some (first_launched max_attempts a addrs)

  unfoldable pub connect_happy_addrs : List A → ℕ → Option (Tasks A S E)
  connect_happy_addrs addrs max_attempts = race_for max_attempts (limited max_attempts addrs)
