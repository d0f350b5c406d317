-- ===== src/Hazard/Safe/Accesses.antt =====
-- Hazard pointers: each access keeps what holds between accesses.
use uvent.Common.{
  ℕ, suc, ◌-◌, ◌+◌, ◌<◌, ◌≡◌, ◌≢◌, ◌⊎◌, inl, inr, refl, sym, ap, subst, ◌∙◌, arith, true, false,
  Bool-cases, ◌==◌, ==_iff, ◌&&◌, ltb, List, [], ◌∷◌, ◌++◌, In, In-append, ℕ-cases,
}
use Prim.Native.Nat.{bit_and}
use uvent.Common.Memory.{update, update_self, update_ne}
use uvent.Hazard.{
  slots, Record, new_record, set_active, add_record, publish, clear_slots, collect, found, reclaim,
}
use uvent.Hazard.Steps.{
  Phase, detached, resting, cleared, loaded, published, choosing, reading, World, go, sees, forgets,
  forgets_all, Step, new_step, reuse_step, write_step, load_step, null_step, found_step,
  publish_step, same_step, again_step, retire_step, scan_step, skip_step, open_step, slot_step,
  close_step, reclaim_step, clear_step, leave_step,
}
use uvent.Hazard.Held.{
  Running, Found, IsProtected, phase-IsProtected, record-IsProtected, fewer-IsProtected,
  more-IsProtected, write-IsProtected, retired-IsProtected,
}

abbrev pub IsGuarded : World → Type 0
IsGuarded w = IsProtected w.domain.records w.domain.size w.phase w.cells w.retired w.holds

found-In : (p : ℕ) (hs : List ℕ) → In p hs → found p hs ≡ true
found-In p [] i = elim i [ ]
found-In p (h ∷ hs) (inl e) = let same : (p == h) ≡ true = (==_iff p h).1 e in rw (same) refl
found-In p (h ∷ hs) (inr i) = let rest = found-In p hs i in ground (arith, rest)

unequal_answers : false ≡ true → ⊥
unequal_answers e = cc

-- What is deleted was in the list and is no hazard; what is kept was in the list.
pub reclaim-freed : (hs ps : List ℕ) (p : ℕ) → In p (reclaim hs ps).0 → In p ps × (In p hs → ⊥)
unfolding reclaim
reclaim-freed hs [] p h = elim h [ ]
reclaim-freed hs (x ∷ xs) p h = elim (Bool-cases (found x hs)) [
  | inl z ↦ let rest = reclaim-freed hs xs p (rw (z) at h) in (inr rest.0, rest.1)
  | inr z ↦
      let k : In p (x ∷ (reclaim hs xs).0) = rw (z) at h in
      elim k [
        | inl e ↦ (inl e, λ i. unequal_answers (sym z ∙ found-In x hs (subst (λ q. In q hs) e i)))
        | inr i ↦ let rest = reclaim-freed hs xs p i in (inr rest.0, rest.1)
      ]
]

reclaim-kept : (hs ps : List ℕ) (p : ℕ) → In p (reclaim hs ps).1 → In p ps
unfolding reclaim
reclaim-kept hs [] p h = elim h [ ]
reclaim-kept hs (x ∷ xs) p h = elim (Bool-cases (found x hs)) [
  | inl z ↦
      let k : In p (x ∷ (reclaim hs xs).1) = rw (z) at h in
      elim k [ inl e ↦ inl e | inr i ↦ inr (reclaim-kept hs xs p i) ]
  | inr z ↦ inr (reclaim-kept hs xs p (rw (z) at h))
]

collect_self : (p : ℕ) (hs : List ℕ) → p ≢ 0 → In p (collect p hs)
unfolding collect
collect_self p hs d = elim (Bool-cases (p == 0)) [
  | inl z ↦ absurd (d ((==_iff p 0).0 z))
  | inr z ↦ rw (z) (inl refl)
]

collect_other : (q p : ℕ) (hs : List ℕ) → In p hs → In p (collect q hs)
unfolding collect
collect_other q p hs i = elim (Bool-cases (q == 0)) [ inl z ↦ rw (z) i | inr z ↦ rw (z) (inr i) ]

module _ (w : World) (v : IsGuarded w) where
  moves :
      (t : ℕ) (f g : Phase)
      → w.phase t ≡ f
      → (Running g → Running f)
      → (Running f → Running g)
      → ((j s p : ℕ)
          → In p (w.retired t)
          → w.holds j s ≡ true
          → (w.domain.records j).hp s ≡ p
          → Found f j s p
          → Found g j s p)
      → IsGuarded (go t g w.domain w)
  moves t f g at_f back on found =
      phase-IsProtected w.domain.records w.domain.size w.phase w.cells w.retired w.holds v t g
        (λ a. v.attached t (subst Running (sym at_f) (back a)))
        (λ s h. on (subst Running at_f (v.holders t s h).0))
        (λ j s p m h e. found j s p m h e (subst (λ z. Found z j s p) at_f (v.finds t j s p m h e)))

  -- A thread that runs loads a pointer from a cell.
  loads : (t c : ℕ) → Running (w.phase t) → IsGuarded (sees t (w.cells c) w)
  loads t c runs =
      more-IsProtected w.domain.records w.domain.size w.phase w.cells w.retired w.holds v
        (sees t (w.cells c) w).holds (λ i s. cases i s)
    where
      cases :
          (i s : ℕ)
          → (sees t (w.cells c) w).holds i s ≡ true
          → w.holds i s ≡ true
            ⊎ (Running (w.phase i)
                × (s < slots)
                × ((n : ℕ) → In ((w.domain.records i).hp s) (w.retired n) → ⊥))
      cases i s l =
          elim (Bool-cases ((i == t) && ((w.domain.records t).hp s == w.cells c) && ltb s slots)) [
            | inl z ↦
                let same : i ≡ t = ground (arith, z) in
                let here : (w.domain.records t).hp s ≡ w.cells c = ground (arith, z) in
                let low : s < slots = ground (arith, z) in
                inr (
                  subst (λ n. Running (w.phase n)) (sym same) runs,
                  low,
                  λ n m.
                      v.pending n (w.cells c) c
                        (subst (λ q. In q (w.retired n))
                          (ap (λ k. (w.domain.records k).hp s) same ∙ here) m)
                        refl,
                )
            | inr z ↦ inl (rw (z) at l)
          ]

forgets-holds : (w : World) (t k j s : ℕ) → (forgets t k w).holds j s ≡ true → w.holds j s ≡ true
forgets-holds w t k j s h = elim (Bool-cases ((j == t) && (s == k))) [
  | inl z ↦ absurd (unequal_answers (rw (z) at h))
  | inr z ↦ rw (z) at h
]

forgets-other : (w : World) (t k s : ℕ) → (forgets t k w).holds t s ≡ true → s ≢ k
forgets-other w t k s h e = ground (arith, h, e)

forgets_all-holds :
    (w : World) (t j s : ℕ) → (forgets_all t w).holds j s ≡ true → w.holds j s ≡ true
forgets_all-holds w t j s h = elim (Bool-cases (j == t)) [
  | inl z ↦ absurd (unequal_answers (rw (z) at h))
  | inr z ↦ rw (z) at h
]

forgets_all-none : (w : World) (t s : ℕ) → (forgets_all t w).holds t s ≡ true → ⊥
forgets_all-none w t s h = ground (arith, h)

pub Step-IsGuarded : {v w : World} → IsGuarded v → Step v w → IsGuarded w
unfolding set_active add_record publish clear_slots
Step-IsGuarded g (new_step v at_f) =
    let n = v.domain.size in
    let r : Record = record new_record { active = true } in
    let no_hold = λ (s : ℕ) (h : v.holds n s ≡ true). subst Running at_f (g.holders n s h).0 in
    let made =
      record-IsProtected v.domain.records n v.phase v.cells v.retired v.holds g n (suc n) r
        (omega arith) (λ a. (refl, omega arith)) (λ s h. absurd (no_hold s h)) in
    phase-IsProtected (update v.domain.records n r) (suc n) v.phase v.cells v.retired v.holds made n
      resting (λ a. (ap (λ b. b.active) (update_self v.domain.records n r), omega arith))
      (λ s h. tt) (λ j s p m h e. tt)
Step-IsGuarded g (reuse_step t v at_f is_record) =
    let r : Record = record (v.domain.records t) { active = true } in
    let made =
      record-IsProtected v.domain.records v.domain.size v.phase v.cells v.retired v.holds g t
        v.domain.size r (omega arith) (λ a. (refl, is_record)) (λ s h. refl) in
    phase-IsProtected (update v.domain.records t r) v.domain.size v.phase v.cells v.retired v.holds
      made t resting (λ a. (ap (λ b. b.active) (update_self v.domain.records t r), is_record))
      (λ s h. tt) (λ j s p m h e. tt)
Step-IsGuarded g (write_step c q v free) =
    write-IsProtected v.domain.records v.domain.size v.phase v.cells v.retired v.holds g c q free
Step-IsGuarded g (load_step t c v at_f) =
    loads (go t (loaded c (v.cells c)) v.domain v)
      (moves v g t resting (loaded c (v.cells c)) at_f (λ a. tt) (λ a. tt) (λ j s p m h e f. tt)) t
      c (subst Running (sym (update_self v.phase t (loaded c (v.cells c)))) tt)
Step-IsGuarded g (null_step t c v at_f) =
    moves v g t (loaded c 0) resting at_f (λ a. tt) (λ a. tt) (λ j s p m h e f. tt)
Step-IsGuarded g (found_step t c p s v at_f d l h) =
    moves v g t (loaded c p) resting at_f (λ a. tt) (λ a. tt) (λ j s p m h e f. tt)
Step-IsGuarded g (publish_step t c p v at_f d out) =
    let old = v.domain.records t in
    let r : Record = record old {
      hp = update old.hp old.victim p;
      victim = bit_and (old.victim + 1) (slots - 1);
    } in
    let less = (forgets t old.victim v).holds in
    let forgot =
      fewer-IsProtected v.domain.records v.domain.size v.phase v.cells v.retired v.holds g less
        (λ j s h. forgets-holds v t old.victim j s h) in
    let has = g.attached t (subst Running (sym at_f) tt) in
    let made =
      record-IsProtected v.domain.records v.domain.size v.phase v.cells v.retired less forgot t
        v.domain.size r (omega arith) (λ a. has)
        (λ s h. update_ne old.hp p (forgets-other v t old.victim s h)) in
    phase-IsProtected (update v.domain.records t r) v.domain.size v.phase v.cells v.retired less
      made t (published c p)
      (λ a. (ap (λ b. b.active) (update_self v.domain.records t r) ∙ has.0, has.1)) (λ s h. tt)
      (λ j s p m h e. tt)
Step-IsGuarded g (same_step t c p v at_f e) =
    loads (go t resting v.domain v)
      (moves v g t (published c p) resting at_f (λ a. tt) (λ a. tt) (λ j s p m h e f. tt)) t c
      (subst Running (sym (update_self v.phase t resting)) tt)
Step-IsGuarded g (again_step t c p v at_f e) =
    loads (go t (loaded c (v.cells c)) v.domain v)
      (moves v g t (published c p) (loaded c (v.cells c)) at_f (λ a. tt) (λ a. tt)
        (λ j s p m h e f. tt))
      t c (subst Running (sym (update_self v.phase t (loaded c (v.cells c)))) tt)
Step-IsGuarded g (retire_step t p v at_f d gone) =
    retired-IsProtected v.domain.records v.domain.size v.phase v.cells v.retired v.holds g t
      (v.retired t ++ p ∷ [])
      (λ q i. elim (In-append q (v.retired t) (p ∷ []) i) [
        | inl o ↦ inl o
        | inr (inl e) ↦ inr (λ z. d (sym e ∙ z), λ c z. gone c (z ∙ e), at_f)
        | inr (inr n) ↦ elim n [ ]
      ])
Step-IsGuarded g (scan_step t v at_f) =
    moves v g t resting (choosing v.domain.size []) at_f (λ a. tt) (λ a. tt)
      (λ j s p m h e f. λ far. absurd (omega (arith, far, (g.attached j (g.holders j s h).0).1)))
Step-IsGuarded g (skip_step t k hs v at_f idle) =
    moves v g t (choosing (k + 1) hs) (choosing k hs) at_f (λ a. tt) (λ a. tt)
      (λ j s p m h e f. λ far. elim (ℕ-cases k j) [
        | inl z ↦ absurd (
            unequal_answers (
              sym idle
              ∙ ap (λ n. (v.domain.records n).active) z
              ∙ (g.attached j (g.holders j s h).0).0))
        | inr z ↦ f (omega (arith, far, z))
      ])
Step-IsGuarded g (open_step t k hs v at_f busy) =
    moves v g t (choosing (k + 1) hs) (reading k 0 hs) at_f (λ a. tt) (λ a. tt)
      (λ j s p m h e f. λ far low. elim (ℕ-cases k j) [
        | inl z ↦ absurd (omega (arith, low z))
        | inr z ↦ f (omega (arith, far, z))
      ])
Step-IsGuarded g (slot_step t k i hs v at_f more) =
    moves v g t (reading k i hs) (reading k (i + 1) (collect ((v.domain.records k).hp i) hs)) at_f
      (λ a. tt) (λ a. tt)
      (λ j s p m h e f. λ far low. elim (ℕ-cases k j) [
        | inl z ↦ elim (ℕ-cases s i) [
          | inl y ↦
              let here : (v.domain.records k).hp i ≡ p =
                ap (λ n. (v.domain.records n).hp i) z ∙ ap (v.domain.records j).hp (sym y) ∙ e in
              subst (λ q. In p (collect q hs)) (sym here) (collect_self p hs (g.pointers t p m))
          | inr y ↦
              collect_other ((v.domain.records k).hp i) p hs (f far (λ x. omega (arith, low z, y)))
        ]
        | inr z ↦ collect_other ((v.domain.records k).hp i) p hs (f far (λ x. absurd (z x)))
      ])
Step-IsGuarded g (close_step t k hs v at_f) =
    moves v g t (reading k slots hs) (choosing k hs) at_f (λ a. tt) (λ a. tt)
      (λ j s p m h e f. λ far. f far (λ x. (g.holders j s h).1))
Step-IsGuarded g (reclaim_step t hs v at_f) =
    let rs = (reclaim hs (v.retired t)).1 in
    moves (record v { retired = update v.retired t rs })
      (retired-IsProtected v.domain.records v.domain.size v.phase v.cells v.retired v.holds g t rs
        (λ p i. inl (reclaim-kept hs (v.retired t) p i)))
      t (choosing 0 hs) resting at_f (λ a. tt) (λ a. tt) (λ j s p m h e f. tt)
Step-IsGuarded g (clear_step t v at_f) =
    let r : Record = record (v.domain.records t) { hp = λ s. 0 } in
    let less = (forgets_all t v).holds in
    let forgot =
      fewer-IsProtected v.domain.records v.domain.size v.phase v.cells v.retired v.holds g less
        (λ j s h. forgets_all-holds v t j s h) in
    let made =
      record-IsProtected v.domain.records v.domain.size v.phase v.cells v.retired less forgot t
        v.domain.size r (omega arith) (λ a. g.attached t a)
        (λ s h. absurd (forgets_all-none v t s h)) in
    let away =
      retired-IsProtected (update v.domain.records t r) v.domain.size v.phase v.cells v.retired less
        made t [] (λ p i. elim i [ ]) in
    phase-IsProtected (update v.domain.records t r) v.domain.size v.phase v.cells
      (update v.retired t []) less away t cleared (λ a. elim a [ ])
      (λ s h. absurd (forgets_all-none v t s h)) (λ j s p m h e. tt)
Step-IsGuarded g (leave_step t v at_f) =
    let r : Record = record (v.domain.records t) { active = false } in
    let made =
      record-IsProtected v.domain.records v.domain.size v.phase v.cells v.retired v.holds g t
        v.domain.size r (omega arith) (λ a. absurd (subst Running at_f a)) (λ s h. refl) in
    phase-IsProtected (update v.domain.records t r) v.domain.size v.phase v.cells v.retired v.holds
      made t detached (λ a. elim a [ ]) (λ s h. subst Running at_f (g.holders t s h).0)
      (λ j s p m h e. tt)
