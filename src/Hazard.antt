-- ===== src/Hazard.antt =====
-- include/uvent/utils/sync/HazardPointers.h and src/utils/sync/HazardPointers.cpp: reclamation by hazard
-- pointers. The list of the records is in order of age: `next` of a record is the one before it.
pub mod Steps
mod Held
pub mod Safe
mod Tests
use Prim.Native.Nat.{bit_and}
use uvent.Common.{
  ℕ, suc, ◌+◌, ◌-◌, Bool, true, false, ◌==◌, ◌||◌, if◌then◌else◌, List, [], ◌∷◌, ◌++◌,
}
use uvent.Common.Memory.{update}

abbrev pub slots : ℕ
slots = 8

-- A thread's record. An address is a number, and 0 is null; of a retired pointer it is what is deleted.
pub record Record : Type 0 where
  pub hp : ℕ → ℕ
  pub active : Bool
  pub victim : ℕ

pub record HazardDomain : Type 0 where
  pub records : ℕ → Record
  pub size : ℕ

abbrev pub new_record : Record
new_record = record { hp = λ s. 0; active = false; victim = 0 }

abbrev pub new_domain : HazardDomain
new_domain = record { records = λ t. new_record; size = 0 }

unfoldable pub set_active : ℕ → Bool → HazardDomain → HazardDomain
set_active t b d = record d { records = update d.records t (record (d.records t) { active = b }) }

unfoldable pub add_record : HazardDomain → HazardDomain
add_record d = record {
  records = update d.records d.size (record new_record { active = true });
  size = suc d.size;
}

-- `protect` publishes a pointer in the slot whose turn it is.
unfoldable pub publish : ℕ → ℕ → HazardDomain → HazardDomain
publish t p d =
    let r = d.records t in
    record d {
      records =
          update d.records t
            (record r { hp = update r.hp r.victim p; victim = bit_and (r.victim + 1) (slots - 1) });
    }

unfoldable pub clear_slots : ℕ → HazardDomain → HazardDomain
clear_slots t d = record d { records = update d.records t (record (d.records t) { hp = λ s. 0 }) }

-- The pointer of a slot is collected unless it is null.
unfoldable pub collect : ℕ → List ℕ → List ℕ
collect p hazards = if p == 0 then hazards else p ∷ hazards

abbrev pub found : ℕ → List ℕ → Bool
found p [] = false
found p (h ∷ hs) = (p == h) || found p hs

-- A list of retired pointers, parted into those to delete and those that are hazards.
unfoldable pub reclaim : List ℕ → List ℕ → List ℕ × List ℕ
reclaim hazards [] = ([], [])
reclaim hazards (p ∷ ps) =
    let rest = reclaim hazards ps in
    if found p hazards then (rest.0, p ∷ rest.1) else (p ∷ rest.0, rest.1)
