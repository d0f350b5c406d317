-- ===== src/Reclaim/Safe.antt =====
-- QSBR: what a thread frees of its own list, no reader holds.
mod Accesses
use native.Mathlib.Nat.{mod-eq_of_lt}
use uvent.Common.{
  ℕ, suc, ◌+◌, ◌≤◌, ◌<◌, ◌≡◌, ◌≢◌, inl, inr, refl, sym, ap, subst, ◌∙◌, arith, Bool, true, false,
  Bool-cases, List, [], ◌∷◌, In,
}
use uvent.Reclaim.{Retired, sweep}
use uvent.Reclaim.Steps.{Phase, sweeping, World, Step, Runs, done, next, start}
use uvent.Reclaim.Held.{IsHeld, Finds}
use uvent.Reclaim.Safe.Accesses.{IsGuarded, Step-IsGuarded, sweep-freed}

start-IsGuarded : IsGuarded start
start-IsGuarded = record {
  below = λ i. omega arith;
  top = omega arith;
  users = λ i a. absurd (unequal_answers a);
  attached = λ i a. elim a [ ];
  holders = λ j p l. l;
  noted = λ i r h. elim h [ ];
  old = λ i j r h. elim h [ ];
  finds = λ i j r h. elim h [ ];
}
  where
    unequal_answers : false ≡ true → ⊥
    unequal_answers e = cc

run-IsGuarded : {w : World} → Runs start w → IsGuarded w
run-IsGuarded (done _) = start-IsGuarded
run-IsGuarded (next r s) = Step-IsGuarded (run-IsGuarded r) s

-- However threads attach, enter, leave, retire, tick and detach: what a thread that has scanned frees of its
-- own list, no reader holds, that is, no thread was active when it was retired and has been since.
pub sweep-unheld :
    {w : World} (i safe : ℕ) (r : Retired)
    → Runs start w
    → w.phase i ≡ sweeping safe
    → In r (sweep safe (w.retired i)).0
    → (j : ℕ) → w.holds j r.p ≡ false
sweep-unheld {w} i safe r run at_sweep freed j =
    let g = run-IsGuarded run in
    let due = sweep-freed safe (w.retired i) r freed in
    elim (Bool-cases (w.holds j r.p)) [
      | inl z ↦
          let found : safe ≤ r.epoch =
            subst (λ f. Finds f j r.epoch) at_sweep (g.finds i j r due.0 z) in
          absurd (omega (arith, found, due.1))
      | inr z ↦ z
    ]
