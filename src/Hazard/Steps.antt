-- ===== src/Hazard/Steps.antt =====
-- Hazard pointers: the threads as an interleaving of their accesses.
use uvent.Common.{
  ℕ, ◌+◌, ◌<◌, ◌≡◌, ◌≢◌, Bool, true, false, ◌==◌, ◌&&◌, ltb, if◌then◌else◌, List, [], ◌∷◌, ◌++◌, In,
}
use uvent.Common.Memory.{update}
use uvent.Hazard.{
  slots, HazardDomain, new_domain, set_active, add_record, publish, clear_slots, collect, reclaim,
}

-- Where the thread that has a record is: in `protect` of the cell `c`, with the pointer loaded or published;
-- in `scan`, with the records left, or the record and the slot that is read next, and what is collected.
pub data Phase : Type 0 where
  detached resting cleared : Phase
  loaded published : ℕ → ℕ → Phase
  choosing : ℕ → List ℕ → Phase
  reading : ℕ → ℕ → List ℕ → Phase

-- The threads, the cells from which pointers are loaded, and the lists of retired pointers. A slot holds if
-- its pointer was in a cell after it was published; then it may be used.
pub record World : Type 0 where
  pub domain : HazardDomain
  pub phase : ℕ → Phase
  pub cells : ℕ → ℕ
  pub retired : ℕ → List ℕ
  pub holds : ℕ → ℕ → Bool

abbrev pub go : ℕ → Phase → HazardDomain → World → World
go t f d w = record w { domain = d; phase = update w.phase t f }

-- The thread `t` loads `p` from a cell: its slots with `p` hold.
abbrev pub sees : ℕ → ℕ → World → World
sees t p w = record w {
  holds = λ i s.
      if (i == t) && ((w.domain.records t).hp s == p) && ltb s slots then true else w.holds i s;
}

abbrev pub forgets : ℕ → ℕ → World → World
forgets t s w = record w { holds = λ i j. if (i == t) && (j == s) then false else w.holds i j }

abbrev pub forgets_all : ℕ → World → World
forgets_all t w = record w { holds = λ i j. if i == t then false else w.holds i j }

-- A pointer is retired when no cell has it any more, and comes into a cell when it is not retired. The slots
-- of a record that is released are cleared in one step, in which its retired pointers go to the orphans, which
-- are left out. A scan may start whenever the thread is at rest.
pub data Step : World → World → Type 0 where
  new_step :
      (w : World)
      → w.phase w.domain.size ≡ detached
      → Step w (go w.domain.size resting (add_record w.domain) w)
  reuse_step :
      (t : ℕ) (w : World)
      → w.phase t ≡ detached
      → t < w.domain.size
      → Step w (go t resting (set_active t true w.domain) w)
  write_step :
      (c q : ℕ) (w : World)
      → ((i : ℕ) → In q (w.retired i) → ⊥)
      → Step w (record w { cells = update w.cells c q })
  load_step :
      (t c : ℕ) (w : World)
      → w.phase t ≡ resting
      → Step w (sees t (w.cells c) (go t (loaded c (w.cells c)) w.domain w))
  null_step : (t c : ℕ) (w : World) → w.phase t ≡ loaded c 0 → Step w (go t resting w.domain w)
  found_step :
      (t c p s : ℕ) (w : World)
      → w.phase t ≡ loaded c p
      → p ≢ 0
      → s < slots
      → (w.domain.records t).hp s ≡ p
      → Step w (go t resting w.domain w)
  publish_step :
      (t c p : ℕ) (w : World)
      → w.phase t ≡ loaded c p
      → p ≢ 0
      → ((s : ℕ) → s < slots → (w.domain.records t).hp s ≢ p)
      → Step w
          (forgets t (w.domain.records t).victim (go t (published c p) (publish t p w.domain) w))
  same_step :
      (t c p : ℕ) (w : World)
      → w.phase t ≡ published c p
      → w.cells c ≡ p
      → Step w (sees t (w.cells c) (go t resting w.domain w))
  again_step :
      (t c p : ℕ) (w : World)
      → w.phase t ≡ published c p
      → w.cells c ≢ p
      → Step w (sees t (w.cells c) (go t (loaded c (w.cells c)) w.domain w))
  retire_step :
      (t p : ℕ) (w : World)
      → w.phase t ≡ resting
      → p ≢ 0
      → ((c : ℕ) → w.cells c ≢ p)
      → Step w (record w { retired = update w.retired t (w.retired t ++ p ∷ []) })
  scan_step :
      (t : ℕ) (w : World)
      → w.phase t ≡ resting
      → Step w (go t (choosing w.domain.size []) w.domain w)
  skip_step :
      (t k : ℕ) (hs : List ℕ) (w : World)
      → w.phase t ≡ choosing (k + 1) hs
      → (w.domain.records k).active ≡ false
      → Step w (go t (choosing k hs) w.domain w)
  open_step :
      (t k : ℕ) (hs : List ℕ) (w : World)
      → w.phase t ≡ choosing (k + 1) hs
      → (w.domain.records k).active ≡ true
      → Step w (go t (reading k 0 hs) w.domain w)
  slot_step :
      (t k j : ℕ) (hs : List ℕ) (w : World)
      → w.phase t ≡ reading k j hs
      → j < slots
      → Step w (go t (reading k (j + 1) (collect ((w.domain.records k).hp j) hs)) w.domain w)
  close_step :
      (t k : ℕ) (hs : List ℕ) (w : World)
      → w.phase t ≡ reading k slots hs
      → Step w (go t (choosing k hs) w.domain w)
  reclaim_step :
      (t : ℕ) (hs : List ℕ) (w : World)
      → w.phase t ≡ choosing 0 hs
      → Step w (record (go t resting w.domain w) {
        retired = update w.retired t (reclaim hs (w.retired t)).1;
      })
  clear_step :
      (t : ℕ) (w : World)
      → w.phase t ≡ resting
      → Step w (record (forgets_all t (go t cleared (clear_slots t w.domain) w)) {
        retired = update w.retired t [];
      })
  leave_step :
      (t : ℕ) (w : World)
      → w.phase t ≡ cleared
      → Step w (go t detached (set_active t false w.domain) w)

pub data Runs : World → World → Type 0 where
  done : (w : World) → Runs w w
  next : {u v w : World} → Runs u v → Step v w → Runs u w

abbrev pub start : (ℕ → ℕ) → World
start cells = record {
  domain = new_domain;
  phase = λ t. detached;
  cells = cells;
  retired = λ t. [];
  holds = λ t s. false;
}
