-- ===== src/Race/Tasks/Sound.antt =====
-- HappyEyeballs.cpp: what holds of the tasks of a race between their critical sections.
use uvent.Common.{
  ◌+◌, ◌≤◌, ◌<◌, ◌≡◌, ◌≢◌, ◌⊎◌, inl, inr, refl, sym, ap, ◌∙◌, Bool, true, false, length, arith,
  Bool-cases,
}
use uvent.Race.{HeState, decided, take_parent_if_decided}
use uvent.Race.Tasks.{Parent, Tasks, wake}

abbrev pub is_waiting : Parent → Bool
is_waiting Parent.arriving = false
is_waiting Parent.suspending = false
is_waiting Parent.waiting = true
is_waiting Parent.resumed = false

pub false_ne : false ≢ true
false_ne e = absurd (ground (arith, e))

resumed_ne : Parent.resumed ≢ Parent.waiting
resumed_ne e = false_ne (ap is_waiting e)

module _ {A S E : Type 0} where
  -- Inside a critical section, before a parent is taken.
  pub record IsCounted (r : Tasks A S E) : Type 0 where
    pub counted : r.st.finished + r.starting + r.connecting ≡ r.st.next_idx
    pub bounded : r.st.next_idx ≤ length r.st.addrs
    pub pending : r.st.resolves_pending ≡ r.resolvers
    pub waits : is_waiting r.parent ≡ r.st.parent_waiting
    pub paced :
        r.pacer ≡ false
        → (r.st.done ≡ true) ⊎ ((r.resolvers ≡ 0) × (r.st.next_idx ≡ length r.st.addrs))

  -- Between critical sections no parent waits for a race that is decided.
  pub record IsSound (r : Tasks A S E) : Type 0 where
    pub counts : IsCounted r
    pub undecided : r.parent ≡ Parent.waiting → decided r.st ≡ false

  pub waiting_flag :
      (r : Tasks A S E) → IsCounted r → r.parent ≡ Parent.waiting → r.st.parent_waiting ≡ true
  waiting_flag r v e = sym v.waits ∙ ap is_waiting e

  pub taken-IsSound :
      (r : Tasks A S E)
      → IsCounted r
      → IsSound (record r {
        st = (take_parent_if_decided r.st).1;
        parent = wake (take_parent_if_decided r.st).0 r.parent;
      })
  unfolding take_parent_if_decided
  taken-IsSound r v = elim (Bool-cases (decided r.st)) [
    | inl over ↦ elim (Bool-cases r.st.parent_waiting) [
      | inl there ↦
          rw (over, there)
            record {
              counts = record {
                counted = v.counted;
                bounded = v.bounded;
                pending = v.pending;
                waits = refl;
                paced = v.paced;
              };
              undecided = λ e. absurd (resumed_ne e);
            }
      | inr gone ↦
          rw (over, gone)
            record {
              counts = record {
                counted = v.counted;
                bounded = v.bounded;
                pending = v.pending;
                waits = v.waits ∙ gone;
                paced = v.paced;
              };
              undecided = λ e. absurd (false_ne (sym gone ∙ waiting_flag r v e));
            }
    ]
    | inr open_still ↦ rw (open_still) record { counts = v; undecided = λ _. open_still }
  ]

  -- An attempt that has not finished keeps the race open.
  pub unfinished_lem :
      (st : HeState A S E) → st.done ≡ false → st.finished < length st.addrs → decided st ≡ false
  unfolding decided
  unfinished_lem st d h = ground (arith, d)
