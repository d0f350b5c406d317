-- ===== src/Reclaim/Held.antt =====
-- QSBR: what the states, the epochs and the holders satisfy between accesses.
use uvent.Common.{
  ℕ, ◌≤◌, ◌<◌, ◌≡◌, ◌≢◌, ◌⊎◌, inl, inr, sym, ap, subst, ◌∙◌, arith, Bool, true, Bool-cases, ◌==◌,
  ==_iff, if◌then◌else◌, List, [], ◌∷◌, ◌++◌, In, In-append,
}
use uvent.Common.Memory.{update_cases, update}
use uvent.Reclaim.{ThreadState, Retired, no_epoch}
use uvent.Reclaim.Steps.{
  Phase, detached, attaching, resting, entering, leaving, orphaned, bumping, first_scan, first_read,
  second_scan, second_read, compared, sweeping, adopting,
}

-- A thread in this phase may be active.
abbrev pub Running : Phase → Type 0
Running detached = ⊥
Running attaching = ⊥
Running resting = Unit
Running entering = ⊥
Running leaving = ⊥
Running orphaned = ⊥
Running bumping = Unit
Running (first_scan k m) = Unit
Running (first_read k m) = Unit
Running (second_scan k m) = Unit
Running (second_read k m) = Unit
Running (compared m) = Unit
Running (sweeping safe) = Unit
Running (adopting safe) = Unit

abbrev pub Attached : Phase → Type 0
Attached detached = ⊥
Attached attaching = Unit
Attached resting = Unit
Attached entering = Unit
Attached leaving = Unit
Attached orphaned = Unit
Attached bumping = Unit
Attached (first_scan k m) = Unit
Attached (first_read k m) = Unit
Attached (second_scan k m) = Unit
Attached (second_read k m) = Unit
Attached (compared m) = Unit
Attached (sweeping safe) = Unit
Attached (adopting safe) = Unit

-- What the second scan has found of a reader `j` that holds a pointer retired at the epoch `e`.
abbrev pub Finds : Phase → ℕ → ℕ → Type 0
Finds detached j e = Unit
Finds attaching j e = Unit
Finds resting j e = Unit
Finds entering j e = Unit
Finds leaving j e = Unit
Finds orphaned j e = Unit
Finds bumping j e = Unit
Finds (first_scan k m) j e = Unit
Finds (first_read k m) j e = Unit
Finds (second_scan k m) j e = k ≤ j → m ≤ e
Finds (second_read k m) j e = k < j → m ≤ e
Finds (compared m) j e = Unit
Finds (sweeping safe) j e = safe ≤ e
Finds (adopting safe) j e = Unit

pub record IsHeld (states : ℕ → ThreadState) (size global : ℕ) (phase : ℕ → Phase)
    (retired : ℕ → List Retired) (holds : ℕ → ℕ → Bool) : Type 0 where
  pub below : (i : ℕ) → (states i).epoch ≤ global
  pub top : global < no_epoch
  pub users :
      (i : ℕ)
      → (states i).active ≡ true
      → ((states i).in_use ≡ true) × (i < size) × Running (phase i)
  pub attached : (i : ℕ) → Attached (phase i) → ((states i).in_use ≡ true) × (i < size)
  pub holders : (j p : ℕ) → holds j p ≡ true → (states j).active ≡ true
  pub noted : (i : ℕ) (r : Retired) → In r (retired i) → r.epoch ≤ global
  pub old :
      (i j : ℕ) (r : Retired) → In r (retired i) → holds j r.p ≡ true → (states j).epoch ≤ r.epoch
  pub finds :
      (i j : ℕ) (r : Retired) → In r (retired i) → holds j r.p ≡ true → Finds (phase i) j r.epoch

module _ (states : ℕ → ThreadState) (size global : ℕ) (phase : ℕ → Phase)
    (retired : ℕ → List Retired) (holds : ℕ → ℕ → Bool)
    (v : IsHeld states size global phase retired holds) where
  -- A thread goes on.
  pub phase-IsHeld :
      (i : ℕ) (f : Phase)
      → ((states i).active ≡ true → Running f)
      → (Attached f → ((states i).in_use ≡ true) × (i < size))
      → ((j : ℕ) (r : Retired) → In r (retired i) → holds j r.p ≡ true → Finds f j r.epoch)
      → IsHeld states size global (update phase i f) retired holds
  phase-IsHeld i f runs stays found = record {
    below = v.below;
    top = v.top;
    users = λ j a. (
      (v.users j a).0,
      (v.users j a).1,
      update_cases Running phase i f j (λ z. runs (subst (λ n. (states n).active ≡ true) z a))
          (λ z. (v.users j a).2),
    );
    attached = λ j.
        update_cases (λ g. Attached g → ((states j).in_use ≡ true) × (j < size)) phase i f j
          (λ z a. subst (λ n. ((states n).in_use ≡ true) × (n < size)) (sym z) (stays a))
          (λ z a. v.attached j a);
    holders = v.holders;
    noted = v.noted;
    old = v.old;
    finds = λ n j r h l.
        update_cases (λ g. Finds g j r.epoch) phase i f n
          (λ z. found j r (subst (λ n. In r (retired n)) z h) l) (λ z. v.finds n j r h l);
  }

  -- The global epoch goes up.
  pub bump-IsHeld : (e : ℕ) → global ≤ e → e < no_epoch → IsHeld states size e phase retired holds
  bump-IsHeld e up h = record {
    below = λ i. omega (arith, v.below i, up);
    top = h;
    users = v.users;
    attached = v.attached;
    holders = v.holders;
    noted = λ i r m. omega (arith, v.noted i r m, up);
    old = v.old;
    finds = v.finds;
  }

  -- The holders become fewer.
  pub fewer-IsHeld :
      (less : ℕ → ℕ → Bool)
      → ((j p : ℕ) → less j p ≡ true → holds j p ≡ true)
      → IsHeld states size global phase retired less
  fewer-IsHeld less h = record {
    below = v.below;
    top = v.top;
    users = v.users;
    attached = v.attached;
    holders = λ j p l. v.holders j p (h j p l);
    noted = v.noted;
    old = λ i j r m l. v.old i j r m (h j r.p l);
    finds = λ i j r m l. v.finds i j r m (h j r.p l);
  }

  -- A list of retired pointers becomes shorter.
  pub shorter-IsHeld :
      (i : ℕ) (rs : List Retired)
      → ((r : Retired) → In r rs → In r (retired i))
      → IsHeld states size global phase (update retired i rs) holds
  shorter-IsHeld i rs h =
      let was : (n : ℕ) (r : Retired) → In r (update retired i rs n) → In r (retired n) = λ n r.
        update_cases (λ l. In r l → In r (retired n)) retired i rs n
          (λ z m. subst (λ k. In r (retired k)) (sym z) (h r m)) (λ z m. m) in
      record {
        below = v.below;
        top = v.top;
        users = v.users;
        attached = v.attached;
        holders = v.holders;
        noted = λ n r m. v.noted n r (was n r m);
        old = λ n j r m. v.old n j r (was n r m);
        finds = λ n j r m. v.finds n j r (was n r m);
      }

  -- A thread that holds nothing changes its state, in a phase of its own.
  pub state-IsHeld :
      (i n : ℕ) (s : ThreadState)
      → size ≤ n
      → s.epoch ≤ global
      → (s.active ≡ true → (s.in_use ≡ true) × (i < n) × Running (phase i))
      → (Attached (phase i) → (s.in_use ≡ true) × (i < n))
      → ((p : ℕ) → holds i p ≢ true)
      → IsHeld (update states i s) n global phase retired holds
  state-IsHeld i n s grows low uses keeps free = record {
    below = λ j. update_cases (λ a. a.epoch ≤ global) states i s j (λ z. low) (λ z. v.below j);
    top = v.top;
    users = λ j.
        update_cases (λ a. a.active ≡ true → (a.in_use ≡ true) × (j < n) × Running (phase j)) states
          i s j
          (λ z.
            subst (λ k. s.active ≡ true → (s.in_use ≡ true) × (k < n) × Running (phase k)) (sym z)
              uses)
          (λ z a. ((v.users j a).0, omega (arith, (v.users j a).1, grows), (v.users j a).2));
    attached = λ j.
        update_cases (λ a. Attached (phase j) → (a.in_use ≡ true) × (j < n)) states i s j
          (λ z. subst (λ k. Attached (phase k) → (s.in_use ≡ true) × (k < n)) (sym z) keeps)
          (λ z a. ((v.attached j a).0, omega (arith, (v.attached j a).1, grows)));
    holders = λ j p l.
        update_cases (λ a. a.active ≡ true) states i s j
          (λ z. absurd (free p (subst (λ k. holds k p ≡ true) z l))) (λ z. v.holders j p l);
    noted = v.noted;
    old = λ n j r m l.
        update_cases (λ a. a.epoch ≤ r.epoch) states i s j
          (λ z. absurd (free r.p (subst (λ k. holds k r.p ≡ true) z l))) (λ z. v.old n j r m l);
    finds = v.finds;
  }

  -- A thread at rest retires a pointer that is not pending: those who are active hold it.
  module _ (i p : ℕ) (rests : phase i ≡ resting)
      (pending : (j : ℕ) (r : Retired) → In r (retired j) → r.p ≢ p) where
    abbrev pub entry : Retired
    entry = record { p = p; epoch = global }

    abbrev pub holds_now : ℕ → ℕ → Bool
    holds_now j q = if q == p then (states j).active else holds j q

    pub holds_now_cases :
        (j q : ℕ) → holds_now j q ≡ true → ((states j).active ≡ true) × (q ≢ p → holds j q ≡ true)
    holds_now_cases j q l = elim (Bool-cases (q == p)) [
      | inl z ↦ (rw (z) at l, λ n. absurd (n ((==_iff q p).0 z)))
      | inr z ↦ (v.holders j q (rw (z) at l), λ n. rw (z) at l)
    ]

    entry_cases :
        (n : ℕ) (r : Retired)
        → In r (update retired i (retired i ++ entry ∷ []) n)
        → In r (retired n) ⊎ ((n ≡ i) × (r ≡ entry))
    entry_cases n r =
        update_cases (λ l. In r l → In r (retired n) ⊎ ((n ≡ i) × (r ≡ entry))) retired i
          (retired i ++ entry ∷ []) n
          (λ z m. elim (In-append r (retired i) (entry ∷ []) m) [
            | inl h ↦ inl (subst (λ k. In r (retired k)) (sym z) h)
            | inr h ↦ inr (z, one h)
          ])
          (λ z m. inl m)
      where
        one : In r (entry ∷ []) → r ≡ entry
        one (inl h) = h
        one (inr h) = elim h [ ]

    pub retire-IsHeld :
        IsHeld states size global phase (update retired i (retired i ++ entry ∷ [])) holds_now
    retire-IsHeld = record {
      below = v.below;
      top = v.top;
      users = v.users;
      attached = v.attached;
      holders = λ j q l. (holds_now_cases j q l).0;
      noted = λ n r m. elim (entry_cases n r m) [
        | inl h ↦ v.noted n r h
        | inr h ↦ omega (arith, ap (λ a. a.epoch) h.1)
      ];
      old = λ n j r m l. elim (entry_cases n r m) [
        | inl h ↦ v.old n j r h ((holds_now_cases j r.p l).1 (pending n r h))
        | inr h ↦ omega (arith, ap (λ a. a.epoch) h.1, v.below j)
      ];
      finds = λ n j r m l. elim (entry_cases n r m) [
        | inl h ↦ v.finds n j r h ((holds_now_cases j r.p l).1 (pending n r h))
        | inr h ↦ subst (λ f. Finds f j r.epoch) (sym (ap phase h.0 ∙ rests)) tt
      ];
    }
