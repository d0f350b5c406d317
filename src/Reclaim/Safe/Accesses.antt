-- ===== src/Reclaim/Safe/Accesses.antt =====
-- QSBR: each access keeps what holds between accesses.
use native.Mathlib.Nat.{mod-eq_of_lt}
use uvent.Common.{
  ℕ, suc, ◌+◌, ◌≤◌, ◌<◌, ◌≡◌, ◌≢◌, ◌⊎◌, inl, inr, refl, sym, ap, subst, ◌∙◌, arith, true, false,
  Bool-cases, List, [], ◌∷◌, In, ℕ-cases, ltb,
}
use uvent.Common.Bits.{u64}
use uvent.Common.Memory.{update, update_self}
use uvent.Reclaim.{
  ThreadState, new_state, Retired, Qsbr, no_epoch, set_in_use, set_active, attach_new, enter_epoch,
  retire, smaller, scan_result, bump, sweep, orphan, adopt,
}
use uvent.Reclaim.Steps.{
  Phase, detached, attaching, resting, entering, leaving, orphaned, bumping, first_scan, first_read,
  second_scan, second_read, compared, sweeping, adopting, World, go, let_go, Step, new_step,
  reuse_step, clear_step, enter_step, active_step, leave_step, retire_step, detach_step,
  orphan_step, free_step, tick_step, first_skip, first_see, first_take, first_end, same_step,
  other_step, bump_step, second_skip, second_see, second_take, second_end, sweep_step, adopt_step,
  pass_step,
}
use uvent.Reclaim.Held.{
  IsHeld, Running, Attached, Finds, phase-IsHeld, bump-IsHeld, fewer-IsHeld, shorter-IsHeld,
  state-IsHeld, retire-IsHeld,
}

abbrev pub IsGuarded : World → Type 0
IsGuarded w = IsHeld w.qsbr.states w.qsbr.size w.qsbr.global_epoch w.phase w.retired w.holds

-- What a sweep frees is old enough, and what it keeps was there.
pub sweep-freed :
    (safe : ℕ) (rs : List Retired) (r : Retired)
    → In r (sweep safe rs).0
    → In r rs × (r.epoch < safe)
unfolding sweep
sweep-freed safe [] r h = elim h [ ]
sweep-freed safe (x ∷ xs) r h = elim (Bool-cases (ltb x.epoch safe)) [
  | inl z ↦
      let k : In r (x ∷ (sweep safe xs).0) = rw (z) at h in
      elim k [
        | inl e ↦ (inl e, ground (arith, z, ap (λ a. a.epoch) e))
        | inr i ↦ let rest = sweep-freed safe xs r i in (inr rest.0, rest.1)
      ]
  | inr z ↦ let rest = sweep-freed safe xs r (rw (z) at h) in (inr rest.0, rest.1)
]

sweep-kept : (safe : ℕ) (rs : List Retired) (r : Retired) → In r (sweep safe rs).1 → In r rs
unfolding sweep
sweep-kept safe [] r h = elim h [ ]
sweep-kept safe (x ∷ xs) r h = elim (Bool-cases (ltb x.epoch safe)) [
  | inl z ↦ inr (sweep-kept safe xs r (rw (z) at h))
  | inr z ↦
      let k : In r (x ∷ (sweep safe xs).1) = rw (z) at h in
      elim k [ inl e ↦ inl e | inr i ↦ inr (sweep-kept safe xs r i) ]
]

smaller_left : (e m : ℕ) → smaller e m ≤ e
unfolding smaller
smaller_left e m = ground arith

smaller_right : (e m : ℕ) → smaller e m ≤ m
unfolding smaller
smaller_right e m = ground arith

unequal_answers : false ≡ true → ⊥
unequal_answers e = cc

module _ (w : World) (v : IsGuarded w) where
  -- The thread `i` goes from the phase `f` to the phase `g`.
  moves :
      (i : ℕ) (f g : Phase)
      → w.phase i ≡ f
      → (Running f → Running g)
      → (Attached g → Attached f)
      → ((j : ℕ) (r : Retired)
          → In r (w.retired i)
          → w.holds j r.p ≡ true
          → Finds f j r.epoch
          → Finds g j r.epoch)
      → IsGuarded (go i g w.qsbr w)
  moves i f g at_f runs stays found =
      phase-IsHeld w.qsbr.states w.qsbr.size w.qsbr.global_epoch w.phase w.retired w.holds v i g
        (λ a. runs (subst Running at_f (v.users i a).2))
        (λ a. v.attached i (subst Attached (sym at_f) (stays a)))
        (λ j r h l. found j r h l (subst (λ z. Finds z j r.epoch) at_f (v.finds i j r h l)))

  -- A thread in a phase in which it is not active holds nothing.
  free_hand : (i : ℕ) (f : Phase) → w.phase i ≡ f → (Running f → ⊥) → (p : ℕ) → w.holds i p ≢ true
  free_hand i f at_f idle p l = idle (subst Running at_f (v.users i (v.holders i p l)).2)

  not_active :
      (i : ℕ) (f : Phase) → w.phase i ≡ f → (Running f → ⊥) → (w.qsbr.states i).active ≢ true
  not_active i f at_f idle a = idle (subst Running at_f (v.users i a).2)

  -- The state of a thread that holds nothing changes.
  changes :
      (i : ℕ) (s : ThreadState)
      → ((p : ℕ) → w.holds i p ≢ true)
      → s.epoch ≤ w.qsbr.global_epoch
      → (s.active ≡ true → (s.in_use ≡ true) × (i < w.qsbr.size) × Running (w.phase i))
      → (Attached (w.phase i) → (s.in_use ≡ true) × (i < w.qsbr.size))
      → IsGuarded (record w { qsbr = record w.qsbr { states = update w.qsbr.states i s } })
  changes i s free low uses keeps =
      state-IsHeld w.qsbr.states w.qsbr.size w.qsbr.global_epoch w.phase w.retired w.holds v i
        w.qsbr.size s (omega arith) low uses keeps free

  lets_go : (i : ℕ) → IsGuarded (let_go i w)
  lets_go i =
      fewer-IsHeld w.qsbr.states w.qsbr.size w.qsbr.global_epoch w.phase w.retired w.holds v
        (let_go i w).holds (λ j p l. ground (arith, l))

  -- A node that holds is in use and active.
  skipped :
      (j p : ℕ)
      → w.holds j p ≡ true
      → (w.qsbr.states j).in_use ≡ false ⊎ (w.qsbr.states j).active ≡ false
      → ⊥
  skipped j p l (inl z) = unequal_answers (sym z ∙ (v.users j (v.holders j p l)).0)
  skipped j p l (inr z) = unequal_answers (sym z ∙ v.holders j p l)

  emptied : (i p : ℕ) → (let_go i w).holds i p ≡ true → ⊥
  emptied i p l = ground (arith, l)

  -- A thread at rest stores that it is not active, and holds nothing any more.
  stops :
      (i : ℕ) (f : Phase)
      → w.phase i ≡ resting
      → ((j e : ℕ) → Finds f j e)
      → IsGuarded (
          let_go i (
            go i f
              (record w.qsbr {
                states = update w.qsbr.states i (record (w.qsbr.states i) { active = false });
              })
              w))
  stops i f at_f finds =
      let s : ThreadState = record (w.qsbr.states i) { active = false } in
      let less = (let_go i w).holds in
      let none_left = λ (p : ℕ) (l : less i p ≡ true). emptied i p l in
      let left =
        state-IsHeld w.qsbr.states w.qsbr.size w.qsbr.global_epoch w.phase w.retired less
          (lets_go i) i w.qsbr.size s (omega arith) (v.below i) (λ a. absurd (unequal_answers a))
          (v.attached i) none_left in
      phase-IsHeld (update w.qsbr.states i s) w.qsbr.size w.qsbr.global_epoch w.phase w.retired less
        left i f
        (λ a.
          absurd (unequal_answers (sym (ap (λ t. t.active) (update_self w.qsbr.states i s)) ∙ a)))
        (λ a. left.attached i (subst Attached (sym at_f) tt)) (λ j r h l. finds j r.epoch)

scan_below : (m e : ℕ) (q : Qsbr) → m ≤ e → e < no_epoch → scan_result m q ≤ e
unfolding scan_result
scan_below m e q h k =
    let differ : m ≢ no_epoch = λ z. omega (arith, z, h, k) in ground (arith, h, differ)

-- The members of a world after an access, for what the accesses below give.
pub Step-IsGuarded : {v w : World} → IsGuarded v → Step v w → IsGuarded w
unfolding set_in_use set_active attach_new enter_epoch retire bump orphan adopt
Step-IsGuarded g (new_step v at_f) =
    let n = v.qsbr.size in
    let s : ThreadState = record new_state { in_use = true } in
    let made =
      state-IsHeld v.qsbr.states n v.qsbr.global_epoch v.phase v.retired v.holds g n (suc n) s
        (omega arith) (omega arith) (λ a. absurd (unequal_answers a)) (λ a. (refl, omega arith))
        (free_hand v g n detached at_f (λ z. z)) in
    phase-IsHeld (update v.qsbr.states n s) (suc n) v.qsbr.global_epoch v.phase v.retired v.holds
      made n resting (λ a. tt)
      (λ a. (ap (λ t. t.in_use) (update_self v.qsbr.states n s), omega arith)) (λ j r h l. tt)
Step-IsGuarded g (reuse_step i v at_f is_node free) =
    let s : ThreadState = record (v.qsbr.states i) { in_use = true } in
    let made =
      changes v g i s (free_hand v g i detached at_f (λ z. z)) (g.below i)
        (λ a. absurd (not_active v g i detached at_f (λ z. z) a)) (λ a. (refl, is_node)) in
    phase-IsHeld (update v.qsbr.states i s) v.qsbr.size v.qsbr.global_epoch v.phase v.retired
      v.holds made i attaching
      (λ a. absurd (
        not_active v g i detached at_f (λ z. z)
          (sym (ap (λ t. t.active) (update_self v.qsbr.states i s)) ∙ a)))
      (λ a. (ap (λ t. t.in_use) (update_self v.qsbr.states i s), is_node)) (λ j r h l. tt)
Step-IsGuarded g (clear_step i v at_f) =
    let s : ThreadState = record (v.qsbr.states i) { active = false } in
    moves (record v { qsbr = record v.qsbr { states = update v.qsbr.states i s } })
      (changes v g i s (free_hand v g i attaching at_f (λ z. z)) (g.below i)
        (λ a. absurd (unequal_answers a)) (g.attached i))
      i attaching resting at_f (λ a. tt) (λ a. tt) (λ j r h l f. tt)
Step-IsGuarded g (enter_step i v at_f idle) =
    let s : ThreadState = record (v.qsbr.states i) { epoch = v.qsbr.global_epoch } in
    let no_hold =
      λ (p : ℕ) (l : v.holds i p ≡ true). unequal_answers (sym idle ∙ g.holders i p l) in
    let made =
      changes v g i s no_hold (omega arith) (λ a. absurd (unequal_answers (sym idle ∙ a)))
        (g.attached i) in
    phase-IsHeld (update v.qsbr.states i s) v.qsbr.size v.qsbr.global_epoch v.phase v.retired
      v.holds made i entering
      (λ a.
        absurd
          (unequal_answers (sym (ap (λ t. t.active) (update_self v.qsbr.states i s) ∙ idle) ∙ a)))
      (λ a. made.attached i (subst Attached (sym at_f) tt)) (λ j r h l. tt)
Step-IsGuarded g (active_step i v at_f) =
    let s : ThreadState = record (v.qsbr.states i) { active = true } in
    let u = record v { phase = update v.phase i resting } in
    let known = g.attached i (subst Attached (sym at_f) tt) in
    changes u (moves v g i entering resting at_f (λ a. tt) (λ a. tt) (λ j r h l f. tt)) i s
      (free_hand v g i entering at_f (λ z. z)) (g.below i)
      (λ a. (known.0, known.1, subst Running (sym (update_self v.phase i resting)) tt)) (λ a. known)
Step-IsGuarded g (leave_step i v at_f) = stops v g i resting at_f (λ j e. tt)
Step-IsGuarded g (detach_step i v at_f) = stops v g i leaving at_f (λ j e. tt)
Step-IsGuarded g (retire_step i p v at_f pending) =
    retire-IsHeld v.qsbr.states v.qsbr.size v.qsbr.global_epoch v.phase v.retired v.holds g i p at_f
      pending
Step-IsGuarded g (orphan_step i v at_f) =
    let u = record v { retired = update v.retired i [] } in
    moves u
      (shorter-IsHeld v.qsbr.states v.qsbr.size v.qsbr.global_epoch v.phase v.retired v.holds g i []
        (λ r h. elim h [ ]))
      i leaving orphaned at_f (λ a. a) (λ a. tt) (λ j r h l f. tt)
Step-IsGuarded g (free_step i v at_f) =
    let s : ThreadState = record (v.qsbr.states i) { in_use = false } in
    let u = record v { phase = update v.phase i detached } in
    changes u (moves v g i orphaned detached at_f (λ a. a) (λ a. tt) (λ j r h l f. tt)) i s
      (free_hand v g i orphaned at_f (λ z. z)) (g.below i)
      (λ a. absurd (not_active v g i orphaned at_f (λ z. z) a))
      (λ a. absurd (subst Attached (update_self v.phase i detached) a))
Step-IsGuarded g (tick_step i v at_f) =
    moves v g i resting (first_scan v.qsbr.size no_epoch) at_f (λ a. tt) (λ a. tt) (λ j r h l f. tt)
Step-IsGuarded g (first_skip i k m v at_f c) =
    moves v g i (first_scan (k + 1) m) (first_scan k m) at_f (λ a. tt) (λ a. tt) (λ j r h l f. tt)
Step-IsGuarded g (first_see i k m v at_f c) =
    moves v g i (first_scan (k + 1) m) (first_read k m) at_f (λ a. tt) (λ a. tt) (λ j r h l f. tt)
Step-IsGuarded g (first_take i k m v at_f) =
    moves v g i (first_read k m) (first_scan k (smaller (v.qsbr.states k).epoch m)) at_f (λ a. tt)
      (λ a. tt) (λ j r h l f. tt)
Step-IsGuarded g (first_end i m v at_f) =
    moves v g i (first_scan 0 m) (compared (scan_result m v.qsbr)) at_f (λ a. tt) (λ a. tt)
      (λ j r h l f. tt)
Step-IsGuarded g (same_step i m v at_f c) =
    moves v g i (compared m) bumping at_f (λ a. tt) (λ a. tt) (λ j r h l f. tt)
Step-IsGuarded g (other_step i m v at_f c) =
    moves v g i (compared m) (second_scan v.qsbr.size no_epoch) at_f (λ a. tt) (λ a. tt)
      (λ j r h l f. λ far. absurd (omega (arith, far, (g.users j (g.holders j r.p l)).1)))
Step-IsGuarded g (bump_step i v at_f c) =
    let e = u64 (v.qsbr.global_epoch + 1) in
    let same : e ≡ v.qsbr.global_epoch + 1 = mod-eq_of_lt (omega (arith, c)) in
    let u = record v { qsbr = record v.qsbr { global_epoch = e } } in
    moves u
      (bump-IsHeld v.qsbr.states v.qsbr.size v.qsbr.global_epoch v.phase v.retired v.holds g e
        (omega (arith, same)) (omega (arith, same, c)))
      i bumping (second_scan v.qsbr.size no_epoch) at_f (λ a. tt) (λ a. tt)
      (λ j r h l f. λ far. absurd (omega (arith, far, (g.users j (g.holders j r.p l)).1)))
Step-IsGuarded g (second_skip i k m v at_f c) =
    moves v g i (second_scan (k + 1) m) (second_scan k m) at_f (λ a. tt) (λ a. tt)
      (λ j r h l f. λ far. elim (ℕ-cases k j) [
        | inl z ↦ absurd (
            skipped v g j r.p l (
              subst (λ n. (v.qsbr.states n).in_use ≡ false ⊎ (v.qsbr.states n).active ≡ false) z c))
        | inr z ↦ f (omega (arith, far, z))
      ])
Step-IsGuarded g (second_see i k m v at_f c) =
    moves v g i (second_scan (k + 1) m) (second_read k m) at_f (λ a. tt) (λ a. tt)
      (λ j r h l f. λ far. f (omega (arith, far)))
Step-IsGuarded g (second_take i k m v at_f) =
    let e = (v.qsbr.states k).epoch in
    moves v g i (second_read k m) (second_scan k (smaller e m)) at_f (λ a. tt) (λ a. tt)
      (λ j r h l f. λ far. elim (ℕ-cases k j) [
        | inl z ↦
            omega (arith, smaller_left e m, ap (λ n. (v.qsbr.states n).epoch) z, g.old i j r h l)
        | inr z ↦ omega (arith, smaller_right e m, f (omega (arith, far, z)))
      ])
Step-IsGuarded g (second_end i m v at_f) =
    moves v g i (second_scan 0 m) (sweeping (scan_result m v.qsbr)) at_f (λ a. tt) (λ a. tt)
      (λ j r h l f.
        scan_below m r.epoch v.qsbr (f (omega arith)) (omega (arith, g.noted i r h, g.top)))
Step-IsGuarded g (sweep_step i safe v at_f) =
    let rs = (sweep safe (v.retired i)).1 in
    let u = record v { retired = update v.retired i rs } in
    moves u
      (shorter-IsHeld v.qsbr.states v.qsbr.size v.qsbr.global_epoch v.phase v.retired v.holds g i rs
        (sweep-kept safe (v.retired i)))
      i (sweeping safe) (adopting safe) at_f (λ a. tt) (λ a. tt) (λ j r h l f. tt)
Step-IsGuarded g (adopt_step i safe v at_f) =
    moves v g i (adopting safe) resting at_f (λ a. tt) (λ a. tt) (λ j r h l f. tt)
Step-IsGuarded g (pass_step i safe v at_f) =
    moves v g i (adopting safe) resting at_f (λ a. tt) (λ a. tt) (λ j r h l f. tt)
