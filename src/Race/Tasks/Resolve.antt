-- ===== src/Race/Tasks/Resolve.antt =====
-- HappyEyeballs.cpp: the pacer, `kick_if_stalled` and the resolvers keep the race sound.
use uvent.Common.{
  ℕ, suc, ◌+◌, ◌-◌, ◌≤◌, ◌≡◌, ◌⊎◌, inl, inr, sym, subst, Bool, true, false, ◌||◌, if◌then◌else◌,
  List, length, arith, Bool-cases,
}
use uvent.Race.{HeState, pacer_stops, end_resolve, weave_tail, none_found}
use uvent.Race.Weave.{weave_tail-Covers}
use uvent.Race.Tasks.{Tasks, pace, resolve, kick}
use uvent.Race.Tasks.Sound.{IsCounted, IsSound, taken-IsSound}

module _ {A S E : Type 0} where
  -- What is left when the pacer stops.
  stopped :
      (st : HeState A S E) (resolvers : ℕ)
      → pacer_stops st ≡ true
      → st.resolves_pending ≡ resolvers
      → st.next_idx ≤ length st.addrs
      → (st.done ≡ true) ⊎ ((resolvers ≡ 0) × (st.next_idx ≡ length st.addrs))
  unfolding pacer_stops
  stopped st resolvers stop p b = elim (Bool-cases st.done) [
    | inl d ↦ inl d
    | inr g ↦ inr (ground (arith, stop, g, p), ground (arith, stop, g, b))
  ]

  pub pace-IsSound : (r : Tasks A S E) → IsSound r → r.pacer ≡ true → IsSound (pace r)
  unfolding pace
  pace-IsSound r v e = elim (Bool-cases (pacer_stops r.st)) [
    | inl stop ↦ subst Goal (sym stop) record {
      counts = record {
        counted = v.counts.counted;
        bounded = v.counts.bounded;
        pending = v.counts.pending;
        waits = v.counts.waits;
        paced = λ _. stopped r.st r.resolvers stop v.counts.pending v.counts.bounded;
      };
      undecided = v.undecided;
    }
    | inr go ↦ subst Goal (sym go) record {
      counts = record {
        counted = v.counts.counted;
        bounded = v.counts.bounded;
        pending = v.counts.pending;
        waits = v.counts.waits;
        paced = v.counts.paced;
      };
      undecided = v.undecided;
    }
  ]
    where
      Goal : Bool → Type 0
      Goal b =
          IsSound
            (if b then (record r { pacer = false }) else (record r { launching = r.launching + 1 }))

  pub kick-IsSound : (n : ℕ) (r : Tasks A S E) → IsSound r → r.kicking ≡ suc n → IsSound (kick n r)
  unfolding kick
  kick-IsSound n r v e = record {
    counts = record {
      counted = v.counts.counted;
      bounded = v.counts.bounded;
      pending = v.counts.pending;
      waits = v.counts.waits;
      paced = v.counts.paced;
    };
    undecided = v.undecided;
  }

  -- What a resolver leaves to `take_parent_if_decided`.
  pub resolve-IsSound :
      (n : ℕ) (v6 : Bool) (found : List A) (r : Tasks A S E)
      → IsSound r
      → r.resolvers ≡ suc n
      → IsSound (resolve n v6 found r)
  unfolding resolve end_resolve weave_tail
  resolve-IsSound n v6 found r v e =
      let counted = record r.st {
        v6_resolved = v6 || r.st.v6_resolved;
        resolves_pending = r.st.resolves_pending - 1;
      } in
      let Goal = λ (b : Bool). IsCounted (record r {
        st = if b then counted else weave_tail counted found v6;
        resolvers = n;
        kicking = r.kicking + 1;
      }) in
      let left : r.st.resolves_pending - 1 ≡ n = omega (arith, v.counts.pending, e) in
      let still : r.pacer ≡ false → r.st.done ≡ true =
        λ p. elim (v.counts.paced p) [ inl d ↦ d | inr last ↦ absurd (omega (arith, last.0, e)) ] in
      taken-IsSound
        (record r {
          st = if r.st.done || none_found found then counted else weave_tail counted found v6;
          resolvers = n;
          kicking = r.kicking + 1;
        })
        (elim (Bool-cases (r.st.done || none_found found)) [
          | inl kept ↦ subst Goal (sym kept) record {
            counted = v.counts.counted;
            bounded = v.counts.bounded;
            pending = left;
            waits = v.counts.waits;
            paced = λ p. inl (still p);
          }
          | inr woven ↦ subst Goal (sym woven) record {
            counted = v.counts.counted;
            bounded = weave_tail-Covers counted found v6 v.counts.bounded;
            pending = left;
            waits = v.counts.waits;
            paced = λ p. inl (still p);
          }
        ])
