-- ===== src/Reclaim/Steps.antt =====
-- QSBR: the threads as an interleaving of their accesses.
use uvent.Common.{ℕ, ◌+◌, ◌<◌, ◌≡◌, ◌≢◌, ◌⊎◌, Bool, true, false, ◌==◌, if◌then◌else◌, List, [], In}
use uvent.Common.Memory.{update}
use uvent.Reclaim.{
  Retired, Qsbr, no_epoch, new_qsbr, set_in_use, set_active, attach_new, enter_epoch, retire,
  smaller, scan_result, bump, sweep, orphan, adopt,
}

-- Where the thread that has a node is. In `quiesce_tick` the first number counts the nodes that its scan has
-- still to read, the second is the least epoch so far; a node whose `active` was seen is read next.
pub data Phase : Type 0 where
  detached attaching resting entering leaving orphaned bumping : Phase
  first_scan first_read second_scan second_read : ℕ → ℕ → Phase
  compared sweeping adopting : ℕ → Phase

-- The threads with their lists of retired pointers. A reader holds a pointer if it was active when the
-- pointer was retired, and has been since.
pub record World : Type 0 where
  pub qsbr : Qsbr
  pub phase : ℕ → Phase
  pub retired : ℕ → List Retired
  pub holds : ℕ → ℕ → Bool

abbrev pub go : ℕ → Phase → Qsbr → World → World
go i f q w = record w { qsbr = q; phase = update w.phase i f }

abbrev pub let_go : ℕ → World → World
let_go i w = record w { holds = λ j p. if j == i then false else w.holds j p }

-- The sections of a thread do not nest, and it ticks at rest; a pointer is retired when it is unlinked, so
-- that only those who are active may still use it, and again only after it was freed. The epoch stays below
-- the number with which a scan starts. A load of a flag that skips a node is one step.
pub data Step : World → World → Type 0 where
  new_step :
      (w : World)
      → w.phase w.qsbr.size ≡ detached
      → Step w (go w.qsbr.size resting (attach_new w.qsbr) w)
  reuse_step :
      (i : ℕ) (w : World)
      → w.phase i ≡ detached
      → i < w.qsbr.size
      → (w.qsbr.states i).in_use ≡ false
      → Step w (go i attaching (set_in_use i true w.qsbr) w)
  clear_step :
      (i : ℕ) (w : World)
      → w.phase i ≡ attaching
      → Step w (go i resting (set_active i false w.qsbr) w)
  enter_step :
      (i : ℕ) (w : World)
      → w.phase i ≡ resting
      → (w.qsbr.states i).active ≡ false
      → Step w (go i entering (enter_epoch i w.qsbr) w)
  active_step :
      (i : ℕ) (w : World)
      → w.phase i ≡ entering
      → Step w (go i resting (set_active i true w.qsbr) w)
  leave_step :
      (i : ℕ) (w : World)
      → w.phase i ≡ resting
      → Step w (let_go i (go i resting (set_active i false w.qsbr) w))
  retire_step :
      (i p : ℕ) (w : World)
      → w.phase i ≡ resting
      → ((j : ℕ) (r : Retired) → In r (w.retired j) → r.p ≢ p)
      → Step w (record w {
        retired = update w.retired i (retire p w.qsbr (w.retired i));
        holds = λ j q. if q == p then (w.qsbr.states j).active else w.holds j q;
      })
  detach_step :
      (i : ℕ) (w : World)
      → w.phase i ≡ resting
      → Step w (let_go i (go i leaving (set_active i false w.qsbr) w))
  orphan_step :
      (i : ℕ) (w : World)
      → w.phase i ≡ leaving
      → Step w (record (go i orphaned (orphan (w.retired i) w.qsbr) w) {
        retired = update w.retired i [];
      })
  free_step :
      (i : ℕ) (w : World)
      → w.phase i ≡ orphaned
      → Step w (go i detached (set_in_use i false w.qsbr) w)
  tick_step :
      (i : ℕ) (w : World)
      → w.phase i ≡ resting
      → Step w (go i (first_scan w.qsbr.size no_epoch) w.qsbr w)
  first_skip :
      (i k m : ℕ) (w : World)
      → w.phase i ≡ first_scan (k + 1) m
      → ((w.qsbr.states k).in_use ≡ false ⊎ (w.qsbr.states k).active ≡ false)
      → Step w (go i (first_scan k m) w.qsbr w)
  first_see :
      (i k m : ℕ) (w : World)
      → w.phase i ≡ first_scan (k + 1) m
      → (w.qsbr.states k).active ≡ true
      → Step w (go i (first_read k m) w.qsbr w)
  first_take :
      (i k m : ℕ) (w : World)
      → w.phase i ≡ first_read k m
      → Step w (go i (first_scan k (smaller (w.qsbr.states k).epoch m)) w.qsbr w)
  first_end :
      (i m : ℕ) (w : World)
      → w.phase i ≡ first_scan 0 m
      → Step w (go i (compared (scan_result m w.qsbr)) w.qsbr w)
  same_step :
      (i m : ℕ) (w : World)
      → w.phase i ≡ compared m
      → w.qsbr.global_epoch ≡ m
      → Step w (go i bumping w.qsbr w)
  other_step :
      (i m : ℕ) (w : World)
      → w.phase i ≡ compared m
      → w.qsbr.global_epoch ≢ m
      → Step w (go i (second_scan w.qsbr.size no_epoch) w.qsbr w)
  bump_step :
      (i : ℕ) (w : World)
      → w.phase i ≡ bumping
      → w.qsbr.global_epoch + 1 < no_epoch
      → Step w (go i (second_scan w.qsbr.size no_epoch) (bump w.qsbr) w)
  second_skip :
      (i k m : ℕ) (w : World)
      → w.phase i ≡ second_scan (k + 1) m
      → ((w.qsbr.states k).in_use ≡ false ⊎ (w.qsbr.states k).active ≡ false)
      → Step w (go i (second_scan k m) w.qsbr w)
  second_see :
      (i k m : ℕ) (w : World)
      → w.phase i ≡ second_scan (k + 1) m
      → (w.qsbr.states k).active ≡ true
      → Step w (go i (second_read k m) w.qsbr w)
  second_take :
      (i k m : ℕ) (w : World)
      → w.phase i ≡ second_read k m
      → Step w (go i (second_scan k (smaller (w.qsbr.states k).epoch m)) w.qsbr w)
  second_end :
      (i m : ℕ) (w : World)
      → w.phase i ≡ second_scan 0 m
      → Step w (go i (sweeping (scan_result m w.qsbr)) w.qsbr w)
  sweep_step :
      (i safe : ℕ) (w : World)
      → w.phase i ≡ sweeping safe
      → Step w (record (go i (adopting safe) w.qsbr w) {
        retired = update w.retired i (sweep safe (w.retired i)).1;
      })
  adopt_step :
      (i safe : ℕ) (w : World)
      → w.phase i ≡ adopting safe
      → Step w (go i resting (adopt safe w.qsbr).1 w)
  pass_step : (i safe : ℕ) (w : World) → w.phase i ≡ adopting safe → Step w (go i resting w.qsbr w)

pub data Runs : World → World → Type 0 where
  done : (w : World) → Runs w w
  next : {u v w : World} → Runs u v → Step v w → Runs u w

abbrev pub start : World
start = record { qsbr = new_qsbr; phase = λ i. detached; retired = λ i. []; holds = λ i p. false }
