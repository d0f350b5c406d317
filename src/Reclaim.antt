-- ===== src/Reclaim.antt =====
-- include/uvent/utils/sync/QSBR.h and src/utils/sync/QSBR.cpp: reclamation by quiescent states. The list
-- of the threads' states is in order of age: `next` of a node is the node before it.
pub mod Steps
mod Held
pub mod Safe
mod Tests
mod Orphans
use uvent.Common.{
  ℕ, suc, ◌+◌, ◌-◌, ◌^◌, Bool, true, false, ltb, ◌==◌, if◌then◌else◌, List, [], ◌∷◌, ◌++◌,
}
use uvent.Common.Bits.{u64}
use uvent.Common.Memory.{update}

pub record ThreadState : Type 0 where
  pub epoch : ℕ
  pub active : Bool
  pub in_use : Bool

-- A pointer to delete; the call of its deleter is what the steps free.
pub record Retired : Type 0 where
  pub p : ℕ
  pub epoch : ℕ

pub record Qsbr : Type 0 where
  pub states : ℕ → ThreadState
  pub size : ℕ
  pub global_epoch : ℕ
  pub orphans : List Retired

-- The greatest `uint64_t`, with which a scan starts.
abbrev pub no_epoch : ℕ
no_epoch = 2 ^ 64 - 1

abbrev pub new_state : ThreadState
new_state = record { epoch = 0; active = false; in_use = false }

abbrev pub new_qsbr : Qsbr
new_qsbr = record { states = λ i. new_state; size = 0; global_epoch = 1; orphans = [] }

-- A store to a member of the state of the thread `i`.
unfoldable pub set_in_use : ℕ → Bool → Qsbr → Qsbr
set_in_use i b q = record q { states = update q.states i (record (q.states i) { in_use = b }) }

unfoldable pub set_active : ℕ → Bool → Qsbr → Qsbr
set_active i b q = record q { states = update q.states i (record (q.states i) { active = b }) }

-- `attach_current_thread` with a new node.
unfoldable pub attach_new : Qsbr → Qsbr
attach_new q = record q {
  states = update q.states q.size (record new_state { in_use = true });
  size = suc q.size;
}

-- The first line of `enter`.
unfoldable pub enter_epoch : ℕ → Qsbr → Qsbr
enter_epoch i q = record q {
  states = update q.states i (record (q.states i) { epoch = q.global_epoch });
}

unfoldable pub retire : ℕ → Qsbr → List Retired → List Retired
retire p q own = own ++ record { p = p; epoch = q.global_epoch } ∷ []

-- The comparison of `min_active_epoch`, and its result.
unfoldable pub smaller : ℕ → ℕ → ℕ
smaller e m = if ltb e m then e else m

unfoldable pub scan_result : ℕ → Qsbr → ℕ
scan_result m q = if m == no_epoch then q.global_epoch else m

unfoldable pub bump : Qsbr → Qsbr
bump q = record q { global_epoch = u64 (q.global_epoch + 1) }

-- A list of retired pointers, parted into those to free and those kept.
unfoldable pub sweep : ℕ → List Retired → List Retired × List Retired
sweep safe [] = ([], [])
sweep safe (r ∷ rs) =
    let rest = sweep safe rs in
    if ltb r.epoch safe then (r ∷ rest.0, rest.1) else (rest.0, r ∷ rest.1)

unfoldable pub orphan : List Retired → Qsbr → Qsbr
orphan own q = record q { orphans = q.orphans ++ own }

unfoldable pub adopt : ℕ → Qsbr → List Retired × Qsbr
adopt safe q = let parts = sweep safe q.orphans in (parts.0, record q { orphans = parts.1 })
