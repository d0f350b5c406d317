-- ===== src/Hazard/Safe.antt =====
-- Hazard pointers: what a thread deletes is in no slot that holds.
mod Accesses
use uvent.Common.{ℕ, ◌≡◌, ◌≢◌, subst, arith, true, false, List, In}
use uvent.Hazard.{reclaim}
use uvent.Hazard.Steps.{choosing, World, Runs, done, next, start}
use uvent.Hazard.Held.{Found}
use uvent.Hazard.Safe.Accesses.{IsGuarded, Step-IsGuarded, reclaim-freed}

start-IsGuarded : (cells : ℕ → ℕ) → IsGuarded (start cells)
start-IsGuarded cells = record {
  attached = λ t a. elim a [ ];
  holders = λ t s h. absurd (false_is h);
  pending = λ i p c h. elim h [ ];
  pointers = λ i p h. elim h [ ];
  finds = λ i t s p h. elim h [ ];
}
  where
    false_is : false ≡ true → ⊥
    false_is e = cc

run-IsGuarded : {cells : ℕ → ℕ} {w : World} → Runs (start cells) w → IsGuarded w
run-IsGuarded {cells} (done _) = start-IsGuarded cells
run-IsGuarded (next r s) = Step-IsGuarded (run-IsGuarded r) s

-- However threads take and release records, load, publish and retire pointers and scan: a pointer that a
-- thread deletes after it has read all slots is in no slot that holds, that is, no thread published it, saw
-- it in a cell afterwards and still has it in that slot.
pub reclaim-unheld :
    {cells : ℕ → ℕ} {w : World} (i p t s : ℕ) (hs : List ℕ)
    → Runs (start cells) w
    → w.phase i ≡ choosing 0 hs
    → In p (reclaim hs (w.retired i)).0
    → w.holds t s ≡ true
    → (w.domain.records t).hp s ≢ p
reclaim-unheld {cells} {w} i p t s hs run at_end freed held same =
    let due = reclaim-freed hs (w.retired i) p freed in
    let seen : Found (choosing 0 hs) t s p =
      subst (λ f. Found f t s p) at_end ((run-IsGuarded run).finds i t s p due.0 held same) in
    due.1 (seen (omega arith))
