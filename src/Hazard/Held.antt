-- ===== src/Hazard/Held.antt =====
-- Hazard pointers: what the slots, the cells and the retired pointers satisfy between accesses.
use uvent.Common.{
  ℕ, ◌≤◌, ◌<◌, ◌≡◌, ◌≢◌, ◌⊎◌, inl, inr, sym, ap, subst, ◌∙◌, arith, Bool, true, List, In,
}
use uvent.Common.Memory.{update, update_cases}
use uvent.Hazard.{slots, Record}
use uvent.Hazard.Steps.{Phase, detached, resting, cleared, loaded, published, choosing, reading}

-- The thread has its record.
abbrev pub Running : Phase → Type 0
Running detached = ⊥
Running resting = Unit
Running cleared = ⊥
Running (loaded c p) = Unit
Running (published c p) = Unit
Running (choosing k hs) = Unit
Running (reading k j hs) = Unit

-- The pointer `p` of the slot `s` of the record `t` is collected if the slot was read.
abbrev pub Found : Phase → ℕ → ℕ → ℕ → Type 0
Found detached t s p = Unit
Found resting t s p = Unit
Found cleared t s p = Unit
Found (loaded c q) t s p = Unit
Found (published c q) t s p = Unit
Found (choosing k hs) t s p = k ≤ t → In p hs
Found (reading k j hs) t s p = k ≤ t → (k ≡ t → s < j) → In p hs

pub record IsProtected (records : ℕ → Record) (size : ℕ) (phase : ℕ → Phase) (cells : ℕ → ℕ)
    (retired : ℕ → List ℕ) (holds : ℕ → ℕ → Bool) : Type 0 where
  pub attached : (t : ℕ) → Running (phase t) → ((records t).active ≡ true) × (t < size)
  pub holders : (t s : ℕ) → holds t s ≡ true → Running (phase t) × (s < slots)
  pub pending : (i p c : ℕ) → In p (retired i) → cells c ≢ p
  pub pointers : (i p : ℕ) → In p (retired i) → p ≢ 0
  pub finds :
      (i t s p : ℕ)
      → In p (retired i)
      → holds t s ≡ true
      → (records t).hp s ≡ p
      → Found (phase i) t s p

module _ (records : ℕ → Record) (size : ℕ) (phase : ℕ → Phase) (cells : ℕ → ℕ)
    (retired : ℕ → List ℕ) (holds : ℕ → ℕ → Bool)
    (v : IsProtected records size phase cells retired holds) where
  -- A thread goes on.
  pub phase-IsProtected :
      (t : ℕ) (f : Phase)
      → (Running f → ((records t).active ≡ true) × (t < size))
      → ((s : ℕ) → holds t s ≡ true → Running f)
      → ((j s p : ℕ) → In p (retired t) → holds j s ≡ true → (records j).hp s ≡ p → Found f j s p)
      → IsProtected records size (update phase t f) cells retired holds
  phase-IsProtected t f has runs found = record {
    attached = λ j.
        update_cases (λ g. Running g → ((records j).active ≡ true) × (j < size)) phase t f j
          (λ z a. subst (λ n. ((records n).active ≡ true) × (n < size)) (sym z) (has a))
          (λ z a. v.attached j a);
    holders = λ j s h. (
      update_cases Running phase t f j (λ z. runs s (subst (λ n. holds n s ≡ true) z h))
          (λ z. (v.holders j s h).0),
      (v.holders j s h).1,
    );
    pending = v.pending;
    pointers = v.pointers;
    finds = λ i j s p m h e.
        update_cases (λ g. Found g j s p) phase t f i
          (λ z. found j s p (subst (λ n. In p (retired n)) z m) h e) (λ z. v.finds i j s p m h e);
  }

  -- A record changes, but not in the slots that hold.
  pub record-IsProtected :
      (t n : ℕ) (r : Record)
      → size ≤ n
      → (Running (phase t) → (r.active ≡ true) × (t < n))
      → ((s : ℕ) → holds t s ≡ true → r.hp s ≡ (records t).hp s)
      → IsProtected (update records t r) n phase cells retired holds
  record-IsProtected t n r grows has same = record {
    attached = λ j.
        update_cases (λ a. Running (phase j) → (a.active ≡ true) × (j < n)) records t r j
          (λ z. subst (λ k. Running (phase k) → (r.active ≡ true) × (k < n)) (sym z) has)
          (λ z a. ((v.attached j a).0, omega (arith, (v.attached j a).1, grows)));
    holders = v.holders;
    pending = v.pending;
    pointers = v.pointers;
    finds = λ i j s p m h.
        update_cases (λ a. a.hp s ≡ p → Found (phase i) j s p) records t r j
          (λ z e.
            v.finds i j s p m h
              (ap (λ k. (records k).hp s) z ∙ sym (same s (subst (λ k. holds k s ≡ true) z h)) ∙ e))
          (λ z e. v.finds i j s p m h e);
  }

  -- Fewer slots hold.
  pub fewer-IsProtected :
      (less : ℕ → ℕ → Bool)
      → ((t s : ℕ) → less t s ≡ true → holds t s ≡ true)
      → IsProtected records size phase cells retired less
  fewer-IsProtected less h = record {
    attached = v.attached;
    holders = λ t s l. v.holders t s (h t s l);
    pending = v.pending;
    pointers = v.pointers;
    finds = λ i t s p m l. v.finds i t s p m (h t s l);
  }

  -- More slots hold, but none with a retired pointer.
  pub more-IsProtected :
      (more : ℕ → ℕ → Bool)
      → ((t s : ℕ)
          → more t s ≡ true
          → holds t s ≡ true
            ⊎ (Running (phase t) × (s < slots) × ((i : ℕ) → In ((records t).hp s) (retired i) → ⊥)))
      → IsProtected records size phase cells retired more
  more-IsProtected more h = record {
    attached = v.attached;
    holders = λ t s l. elim (h t s l) [ inl o ↦ v.holders t s o | inr n ↦ (n.0, n.1) ];
    pending = v.pending;
    pointers = v.pointers;
    finds = λ i t s p m l e. elim (h t s l) [
      | inl o ↦ v.finds i t s p m o e
      | inr n ↦ absurd (n.2 i (subst (λ q. In q (retired i)) (sym e) m))
    ];
  }

  -- A cell gets a pointer that is not retired.
  pub write-IsProtected :
      (c q : ℕ)
      → ((i : ℕ) → In q (retired i) → ⊥)
      → IsProtected records size phase (update cells c q) retired holds
  write-IsProtected c q free = record {
    attached = v.attached;
    holders = v.holders;
    pending = λ i p b m.
        update_cases (λ a. a ≢ p) cells c q b
          (λ z e. free i (subst (λ a. In a (retired i)) (sym e) m)) (λ z. v.pending i p b m);
    pointers = v.pointers;
    finds = v.finds;
  }

  -- A list of retired pointers changes: each was there, or is in no cell and the thread is at rest.
  pub retired-IsProtected :
      (t : ℕ) (ps : List ℕ)
      → ((p : ℕ)
          → In p ps
          → In p (retired t) ⊎ ((p ≢ 0) × ((c : ℕ) → cells c ≢ p) × (phase t ≡ resting)))
      → IsProtected records size phase cells (update retired t ps) holds
  retired-IsProtected t ps h =
      let was : (i p : ℕ)
          → In p (update retired t ps i)
          → In p (retired i) ⊎ ((p ≢ 0) × ((c : ℕ) → cells c ≢ p) × (phase i ≡ resting)) =
        λ i p.
          update_cases
            (λ l.
              In p l → In p (retired i) ⊎ ((p ≢ 0) × ((c : ℕ) → cells c ≢ p) × (phase i ≡ resting)))
            retired t ps i
            (λ z m.
              subst
                (λ k. In p (retired k) ⊎ ((p ≢ 0) × ((c : ℕ) → cells c ≢ p) × (phase k ≡ resting)))
                (sym z) (h p m))
            (λ z m. inl m) in
      record {
        attached = v.attached;
        holders = v.holders;
        pending = λ i p c m. elim (was i p m) [ inl o ↦ v.pending i p c o | inr n ↦ n.1 c ];
        pointers = λ i p m. elim (was i p m) [ inl o ↦ v.pointers i p o | inr n ↦ n.0 ];
        finds = λ i j s p m l e. elim (was i p m) [
          | inl o ↦ v.finds i j s p o l e
          | inr n ↦ subst (λ f. Found f j s p) (sym n.2) tt
        ];
      }
