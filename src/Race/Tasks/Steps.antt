-- ===== src/Race/Tasks/Steps.antt =====
-- HappyEyeballs.cpp: the parent, and `launch_next`, keep the race sound.
use uvent.Common.{
  ℕ, zero, suc, ◌<◌, ◌≡◌, inl, inr, refl, sym, ap, ◌∙◌, false, ◌||◌, leb, List, [], ◌∷◌, length,
  get_elem?, arith, Bool-cases,
}
use uvent.Race.{decided, await_suspend, launch_next}
use uvent.Race.Tasks.{Parent, Tasks, one_if_some, ready, suspend, launch}
use uvent.Race.Tasks.Sound.{is_waiting, IsSound, unfinished_lem, false_ne}

one_launched : {A : Type 0} (xs : List A) (i : ℕ) → i < length xs → one_if_some (get_elem? xs i) ≡ 1
one_launched [] i h = absurd (omega arith)
one_launched (x ∷ xs) zero h = refl
one_launched (x ∷ xs) (suc i) h = one_launched xs i (omega arith)

module _ {A S E : Type 0} where
  -- The parent moves on without sleeping.
  with_parent :
      (r : Tasks A S E) (p : Parent)
      → IsSound r
      → is_waiting r.parent ≡ false
      → is_waiting p ≡ false
      → IsSound (record r { parent = p })
  with_parent r p v e f = record {
    counts = record {
      counted = v.counts.counted;
      bounded = v.counts.bounded;
      pending = v.counts.pending;
      waits = f ∙ sym e ∙ v.counts.waits;
      paced = v.counts.paced;
    };
    undecided = λ d. absurd (false_ne (sym f ∙ ap is_waiting d));
  }

  pub ready-IsSound : (r : Tasks A S E) → IsSound r → r.parent ≡ Parent.arriving → IsSound (ready r)
  unfolding ready
  ready-IsSound r v e = elim (Bool-cases (decided r.st)) [
    | inl over ↦ rw (over) (with_parent r Parent.resumed v (ap is_waiting e) refl)
    | inr going ↦ rw (going) (with_parent r Parent.suspending v (ap is_waiting e) refl)
  ]

  pub suspend-IsSound :
      (r : Tasks A S E) → IsSound r → r.parent ≡ Parent.suspending → IsSound (suspend r)
  unfolding suspend await_suspend decided
  suspend-IsSound r v e = elim (Bool-cases (decided r.st)) [
    | inl over ↦ rw (over) (with_parent r Parent.resumed v (ap is_waiting e) refl)
    | inr going ↦ rw (going) record {
      counts = record {
        counted = v.counts.counted;
        bounded = v.counts.bounded;
        pending = v.counts.pending;
        waits = refl;
        paced = v.counts.paced;
      };
      undecided = λ _. going;
    }
  ]

  pub launch-IsSound :
      (n : ℕ) (r : Tasks A S E) → IsSound r → r.launching ≡ suc n → IsSound (launch n r)
  unfolding launch launch_next
  launch-IsSound n r v e = elim (Bool-cases (r.st.done || leb (length r.st.addrs) r.st.next_idx)) [
    | inl none_left ↦ rw (none_left) record {
      counts = record {
        counted = omega (arith, v.counts.counted);
        bounded = v.counts.bounded;
        pending = v.counts.pending;
        waits = v.counts.waits;
        paced = v.counts.paced;
      };
      undecided = v.undecided;
    }
    | inr more ↦
        let going : r.st.done ≡ false = ground (arith, more) in
        let inside : r.st.next_idx < length r.st.addrs = ground (arith, more, going) in
        let one = one_launched r.st.addrs r.st.next_idx inside in
        rw (more) record {
          counts = record {
            counted = omega (arith, v.counts.counted, one);
            bounded = omega (arith, inside);
            pending = v.counts.pending;
            waits = v.counts.waits;
            paced = λ p. elim (v.counts.paced p) [
              | inl d ↦ inl d
              | inr last ↦ absurd (omega (arith, last.1, inside))
            ];
          };
          undecided = λ _. unfinished_lem _ going (omega (arith, v.counts.counted, inside));
        }
  ]
