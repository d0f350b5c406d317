-- ===== src/Race.antt =====
-- src/net/HappyEyeballs.cpp: the race of connection attempts to the addresses of a host. Each function
-- here is one critical section, under the mutex of the race's state. `A` is `ResolvedAddr`, `S` is
-- `TCPClientSocket` and `E` is `ConnectError`.
pub mod Weave
pub mod Tasks
use uvent.Common.{
  ℕ, zero, suc, ◌+◌, ◌-◌, max, Bool, true, false, not, ◌&&◌, ◌||◌, Option, none, some, List, [],
  ◌∷◌, ◌++◌, ltb, leb, ◌==◌, if◌then◌else◌, length, take, drop, get_elem?,
}

-- `HEState`; `max_attempts` is 0 for no limit. The parent's handle is held by the race's tasks.
pub record HeState (A S E : Type 0) : Type 0 where
  pub done : Bool
  pub parent_waiting : Bool
  pub addrs : List A
  pub max_attempts : ℕ
  pub next_idx : ℕ
  pub finished : ℕ
  pub resolves_pending : ℕ
  pub v6_resolved : Bool
  pub winner : Option S
  pub last_error : Option E

-- What an attempt leaves: `lost_after_success`, `launch_early`, whether a parent is to be woken.
pub record Outcome (A S E : Type 0) : Type 0 where
  pub lost_after_success : Bool
  pub launch_early : Bool
  pub to_wake : Bool
  pub state : HeState A S E

module _ {A : Type 0} where
  -- `if (st.addrs.size() < cap) push_back`; `none` is for `SIZE_MAX`, which no vector reaches.
  unfoldable pub push_below : Option ℕ → List A → A → List A
  push_below none addrs a = addrs ++ a ∷ []
  push_below (some limit) addrs a = if ltb (length addrs) limit then addrs ++ a ∷ [] else addrs

  -- The loop of `weave_tail`.
  unfoldable pub weave : Option ℕ → List A → List A → List A → List A
  weave limit addrs [] [] = addrs
  weave limit addrs (a ∷ first) [] = weave limit (push_below limit addrs a) first []
  weave limit addrs [] (b ∷ second) = weave limit (push_below limit addrs b) [] second
  weave limit addrs (a ∷ first) (b ∷ second) =
      weave limit (push_below limit (push_below limit addrs a) b) first second

  -- Whether nothing was found.
  abbrev pub none_found : List A → Bool
  none_found [] = true
  none_found (a ∷ found) = false

module _ {A S E : Type 0} where
  unfoldable pub decided : HeState A S E → Bool
  decided st =
      st.done
      || ((st.resolves_pending == 0)
          && ((st.next_idx == length st.addrs) && (st.finished == length st.addrs)))

  -- Whether there is a parent to wake, and the state without it.
  unfoldable pub take_parent_if_decided : HeState A S E → Bool × HeState A S E
  take_parent_if_decided st =
      if decided st && st.parent_waiting
      then (true, record st { parent_waiting = false })
      else (false, st)

  -- `RaceAwaiter::await_suspend`
  unfoldable pub await_suspend : HeState A S E → Bool × HeState A S E
  await_suspend st = if decided st then (false, st) else (true, record st { parent_waiting = true })

  -- `launch_next`: the address that an attempt is spawned for.
  unfoldable pub launch_next : HeState A S E → Option A × HeState A S E
  launch_next st =
      if st.done || leb (length st.addrs) st.next_idx
      then (none, st)
      else (get_elem? st.addrs st.next_idx, record st { next_idx = st.next_idx + 1 })

  -- The start of `he_attempt`: whether it is skipped, and whether a parent is to be woken.
  unfoldable pub begin_attempt : HeState A S E → Bool × Bool × HeState A S E
  begin_attempt st =
      let kept = take_parent_if_decided (record st { finished = st.finished + 1 }) in
      if st.done then (true, kept.0, kept.1) else (false, false, st)

  -- The part of `he_attempt` after the connection: `err` is none for a socket that is connected.
  unfoldable pub end_attempt : Option E → S → HeState A S E → Outcome A S E
  end_attempt none sock st =
      let st' = record st { finished = st.finished + 1 } in
      let kept =
        take_parent_if_decided
          (if st.done then st' else (record st' { done = true; winner = some sock })) in
      record {
        lost_after_success = st.done;
        launch_early = false;
        to_wake = kept.0;
        state = kept.1;
      }
  end_attempt (some e) sock st =
      let kept =
        take_parent_if_decided (record st { finished = st.finished + 1; last_error = some e }) in
      record {
        lost_after_success = false;
        launch_early = not st.done && ltb st.next_idx (length st.addrs);
        to_wake = kept.0;
        state = kept.1;
      }

  -- `he_pacer`: whether it stops.
  unfoldable pub pacer_stops : HeState A S E → Bool
  pacer_stops st = st.done || ((st.resolves_pending == 0) && leb (length st.addrs) st.next_idx)

  -- `kick_if_stalled`: whether it launches.
  unfoldable pub is_stalled : HeState A S E → Bool
  is_stalled st =
      not (st.done || (leb (length st.addrs) st.next_idx || not (st.finished == st.next_idx)))

  unfoldable pub cap_of : HeState A S E → Option ℕ
  cap_of st = if st.max_attempts == 0 then none else some (max st.max_attempts st.next_idx)

  unfoldable pub weave_tail : HeState A S E → List A → Bool → HeState A S E
  weave_tail st found found_first =
      let tail = drop st.next_idx st.addrs in
      let launched = take st.next_idx st.addrs in
      record st {
        addrs =
            if found_first
            then weave (cap_of st) launched found tail
            else weave (cap_of st) launched tail found;
      }

  -- The last part of `he_resolve`: whether a parent is to be woken.
  unfoldable pub end_resolve : Bool → List A → HeState A S E → Bool × HeState A S E
  end_resolve v6 found st =
      let counted = record st {
        v6_resolved = v6 || st.v6_resolved;
        resolves_pending = st.resolves_pending - 1;
      } in
      take_parent_if_decided
        (if st.done || none_found found then counted else weave_tail counted found v6)

  -- The state that `connect_happy` begins with.
  abbrev pub happy_start : ℕ → HeState A S E
  happy_start max_attempts = record {
    done = false;
    parent_waiting = false;
    addrs = [];
    max_attempts = max_attempts;
    next_idx = 0;
    finished = 0;
    resolves_pending = 2;
    v6_resolved = false;
    winner = none;
    last_error = none;
  }
