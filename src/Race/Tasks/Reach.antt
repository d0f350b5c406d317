-- ===== src/Race/Tasks/Reach.antt =====
-- HappyEyeballs.cpp: what holds of a race however its tasks interleave.
use uvent.Common.{
  suc, [], ◌∷◌, subst, ltb-false→le, leb, false, List, ◌≢◌, ℕ, ◌+◌, ◌≤◌, ◌≡◌, ◌⊎◌, inl, inr, refl,
  sym, ap, ◌∙◌, true, none, some, length, arith, Bool-cases, ℕ-cases,
}
use mathlib.Core.Option
use uvent.Race.{launch_next, HeState, decided}
use uvent.Race.Tasks.{
  connect_happy_addrs, limited, race_for, first_launched, Parent, Tasks, Step, Runs, done, next,
  ready_step, suspend_step, launch_step, begin_step, finish_step, pace_step, resolve_step,
  kick_step, connect_happy,
}
use uvent.Race.Tasks.Sound.{is_waiting, IsSound, false_ne}
use uvent.Race.Tasks.Steps.{ready-IsSound, suspend-IsSound, launch-IsSound}
use uvent.Race.Tasks.Attempts.{begin-IsSound, failed-IsSound, connected-IsSound}
use uvent.Race.Tasks.Resolve.{pace-IsSound, kick-IsSound, resolve-IsSound}

some_ne : {T : Type 0} {t : T} → some t ≢ none
some_ne e = absurd (ground (arith, e))

some_inj : {T : Type 0} {s t : T} → some s ≡ some t → s ≡ t
some_inj e = Option.some-injective _ _ e

module _ {A S E : Type 0} where
  Step-IsSound : {r s : Tasks A S E} → IsSound r → Step r s → IsSound s
  Step-IsSound v (ready_step r e) = ready-IsSound r v e
  Step-IsSound v (suspend_step r e) = suspend-IsSound r v e
  Step-IsSound v (launch_step n r e) = launch-IsSound n r v e
  Step-IsSound v (begin_step n r e) = begin-IsSound n r v e
  Step-IsSound v (finish_step n none sock r e) = connected-IsSound n sock r v e
  Step-IsSound v (finish_step n (some err) sock r e) = failed-IsSound n err sock r v e
  Step-IsSound v (pace_step r e) = pace-IsSound r v e
  Step-IsSound v (resolve_step n v6 found r e) = resolve-IsSound n v6 found r v e
  Step-IsSound v (kick_step n r e) = kick-IsSound n r v e

  connect_happy-IsSound :
      (max_attempts : ℕ) → IsSound {A = A} {S = S} {E = E} (connect_happy max_attempts)
  connect_happy-IsSound max_attempts = record {
    counts = record {
      counted = refl;
      bounded = omega arith;
      pending = refl;
      waits = refl;
      paced = λ p. absurd (false_ne (sym p));
    };
    undecided = λ e. absurd (false_ne (ap is_waiting e));
  }

  -- However the tasks of `connect_happy` interleave, at every point every launched attempt is counted
  -- as starting, connecting or finished, and the parent does not wait for a race that is decided.
  pub reachable-IsSound :
      (max_attempts : ℕ) {r : Tasks A S E} → Runs (connect_happy max_attempts) r → IsSound r
  reachable-IsSound max_attempts (done r) = connect_happy-IsSound max_attempts
  reachable-IsSound max_attempts (next rs t) = Step-IsSound (reachable-IsSound max_attempts rs) t

  -- What is not decided, with no task at work, is not all launched.
  nothing_left :
      (st : HeState A S E)
      → st.resolves_pending ≡ 0
      → st.next_idx ≡ length st.addrs
      → st.finished ≡ length st.addrs
      → decided st ≡ true
  unfolding decided
  nothing_left st p q f = ground (arith, p, q, f)

  done_lem : (st : HeState A S E) → st.done ≡ true → decided st ≡ true
  unfolding decided
  done_lem st d = ground (arith, d)

  -- What a parent that waits can rely on.
  sound_lem :
      (r : Tasks A S E)
      → IsSound r
      → r.parent ≡ Parent.waiting
      → (r.pacer ≡ true) ⊎ (1 ≤ r.starting + r.connecting + r.resolvers)
  sound_lem r v e =
      let open_still = v.undecided e in
      elim (Bool-cases r.pacer) [
        | inl p ↦ inl p
        | inr q ↦ elim (v.counts.paced q) [
          | inl d ↦ absurd (false_ne (sym open_still ∙ done_lem r.st d))
          | inr last ↦ elim (ℕ-cases (r.starting + r.connecting + r.resolvers) 0) [
            | inl z ↦ absurd (
                false_ne (
                  sym open_still
                  ∙ nothing_left r.st (v.counts.pending ∙ last.0) last.1
                      (omega (arith, v.counts.counted, last.1, z))))
            | inr some_left ↦ inr (omega (arith, some_left))
          ]
        ]
      ]

  -- However the tasks of `connect_happy` interleave, a parent that waits has a task that
  -- will move the race on: the pacer, an attempt or a resolver.
  pub reachable-IsAlive :
      (max_attempts : ℕ) {r : Tasks A S E}
      → Runs (connect_happy max_attempts) r
      → r.parent ≡ Parent.waiting
      → (r.pacer ≡ true) ⊎ (1 ≤ r.starting + r.connecting + r.resolvers)
  reachable-IsAlive max_attempts {r} rs e = sound_lem r (reachable-IsSound max_attempts rs) e

  Runs-IsSound : {r s : Tasks A S E} → IsSound r → Runs r s → IsSound s
  Runs-IsSound v (done r) = v
  Runs-IsSound v (next rs t) = Step-IsSound (Runs-IsSound v rs) t

  first-IsSound :
      (max_attempts : ℕ) (a : A) (addrs : List A)
      → IsSound (first_launched {A = A} {S = S} {E = E} max_attempts a addrs)
  unfolding launch_next
  first-IsSound max_attempts a addrs =
      let more : leb (suc (length addrs)) 0 ≡ false = ground arith in
      rw (more) record {
        counts = record {
          counted = refl;
          bounded = omega arith;
          pending = refl;
          waits = refl;
          paced = λ p. inr (refl, omega (arith, ltb-false→le 1 (length (a ∷ addrs)) p));
        };
        undecided = λ e. absurd (false_ne (ap is_waiting e));
      }

  race-IsSound :
      (max_attempts : ℕ) (addrs : List A) (s : Tasks A S E)
      → race_for max_attempts addrs ≡ some s
      → IsSound s
  race-IsSound max_attempts [] s e = absurd (some_ne (sym e))
  race-IsSound max_attempts (a ∷ addrs) s e =
      subst IsSound (some_inj e) (first-IsSound max_attempts a addrs)

  -- However the tasks of `connect_happy_addrs` interleave once its first attempt is launched, a parent
  -- that waits has a task that will move the race on: the pacer or an attempt.
  pub addrs-IsAlive :
      (addrs : List A) (max_attempts : ℕ) {s r : Tasks A S E}
      → connect_happy_addrs addrs max_attempts ≡ some s
      → Runs s r
      → r.parent ≡ Parent.waiting
      → (r.pacer ≡ true) ⊎ (1 ≤ r.starting + r.connecting + r.resolvers)
  unfolding connect_happy_addrs
  addrs-IsAlive addrs max_attempts {s} {r} e rs w =
      sound_lem r (Runs-IsSound (race-IsSound max_attempts (limited max_attempts addrs) s e) rs) w
