-- ===== src/Race/Tasks/Attempts.antt =====
-- HappyEyeballs.cpp: both critical sections of `he_attempt` keep the race sound.
use uvent.Common.{
  ℕ, suc, ◌+◌, ◌≡◌, inl, inr, refl, sym, ap, subst, Bool, true, false, not, ◌&&◌, if◌then◌else◌,
  none, some, length, arith, Bool-cases, ltb,
}
use uvent.Race.{HeState, take_parent_if_decided, begin_attempt, end_attempt}
use uvent.Race.Tasks.{Tasks, wake, one_if, begin, finish}
use uvent.Race.Tasks.Sound.{IsCounted, IsSound, taken-IsSound}

module _ {A S E : Type 0} where
  skipped_attempt :
      (st : HeState A S E)
      → st.done ≡ true
      → begin_attempt st ≡ (
        true,
        (take_parent_if_decided (record st { finished = st.finished + 1 })).0,
        (take_parent_if_decided (record st { finished = st.finished + 1 })).1,
      )
  unfolding begin_attempt
  skipped_attempt st d =
      let kept = take_parent_if_decided (record st { finished = st.finished + 1 }) in
      ap (λ b. if b then (true, kept.0, kept.1) else (false, false, st)) d

  begun_attempt : (st : HeState A S E) → st.done ≡ false → begin_attempt st ≡ (false, false, st)
  unfolding begin_attempt
  begun_attempt st d =
      let kept = take_parent_if_decided (record st { finished = st.finished + 1 }) in
      ap (λ b. if b then (true, kept.0, kept.1) else (false, false, st)) d

  pub begin-IsSound :
      (n : ℕ) (r : Tasks A S E) → IsSound r → r.starting ≡ suc n → IsSound (begin n r)
  unfolding begin
  begin-IsSound n r v e =
      let Goal = λ (b : Bool × Bool × HeState A S E). IsSound (record r {
        st = b.2;
        starting = n;
        connecting = r.connecting + (if b.0 then 0 else 1);
        parent = wake b.1 r.parent;
      }) in
      elim (Bool-cases r.st.done) [
        | inl over ↦ subst Goal (sym (skipped_attempt r.st over)) (
            taken-IsSound
              (record r {
                st = record r.st { finished = r.st.finished + 1 };
                starting = n;
                connecting = r.connecting + 0;
              })
              record {
                counted = omega (arith, v.counts.counted, e);
                bounded = v.counts.bounded;
                pending = v.counts.pending;
                waits = v.counts.waits;
                paced = v.counts.paced;
              })
        | inr going ↦ subst Goal (sym (begun_attempt r.st going)) record {
          counts = record {
            counted = omega (arith, v.counts.counted, e);
            bounded = v.counts.bounded;
            pending = v.counts.pending;
            waits = v.counts.waits;
            paced = v.counts.paced;
          };
          undecided = v.undecided;
        }
      ]

  -- The state that an attempt which fails leaves to `take_parent_if_decided`.
  pub failed-IsSound :
      (n : ℕ) (err : E) (sock : S) (r : Tasks A S E)
      → IsSound r
      → r.connecting ≡ suc n
      → IsSound (finish n (some err) sock r)
  unfolding finish end_attempt
  failed-IsSound n err sock r v e =
      taken-IsSound
        (record r {
          st = record r.st { finished = r.st.finished + 1; last_error = some err };
          connecting = n;
          launching = r.launching + one_if (not r.st.done && ltb r.st.next_idx (length r.st.addrs));
        })
        record {
          counted = omega (arith, v.counts.counted, e);
          bounded = v.counts.bounded;
          pending = v.counts.pending;
          waits = v.counts.waits;
          paced = v.counts.paced;
        }

  pub connected-IsSound :
      (n : ℕ) (sock : S) (r : Tasks A S E)
      → IsSound r
      → r.connecting ≡ suc n
      → IsSound (finish n none sock r)
  unfolding finish end_attempt
  connected-IsSound n sock r v e =
      let finished = record r.st { finished = r.st.finished + 1 } in
      let won = record finished { done = true; winner = some sock } in
      let Goal = λ (b : Bool). IsCounted (record r {
        st = if b then finished else won;
        connecting = n;
        launching = r.launching + 0;
      }) in
      taken-IsSound
        (record r {
          st = if r.st.done then finished else won;
          connecting = n;
          launching = r.launching + 0;
        })
        (elim (Bool-cases r.st.done) [
          | inl over ↦ subst Goal (sym over) record {
            counted = omega (arith, v.counts.counted, e);
            bounded = v.counts.bounded;
            pending = v.counts.pending;
            waits = v.counts.waits;
            paced = λ _. inl over;
          }
          | inr going ↦ subst Goal (sym going) record {
            counted = omega (arith, v.counts.counted, e);
            bounded = v.counts.bounded;
            pending = v.counts.pending;
            waits = v.counts.waits;
            paced = λ _. inl refl;
          }
        ])
