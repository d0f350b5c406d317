-- ===== src/FastQueue/Tests.antt =====
-- FastQueue.h: a full queue whose `tail` has wrapped, and runs of its operations.
use uvent.Common.{true, ℕ, ◌+◌, ◌-◌, ◌^◌, ◌≡◌, refl, [], ◌∷◌, ◌++◌, arith, some, take, drop}
use uvent.FastQueue.{
  Queue, enqueue, dequeue, enqueue_bulk, dequeue_bulk, grow, store, move_items, fill, fill_copied,
}
use uvent.FastQueue.Refine.{IsValid, contents, enqueue-contents}
use uvent.FastQueue.Bulk.{pop, dequeue-contents}
use uvent.FastQueue.Out.{dequeue_bulk-contents}
use uvent.FastQueue.Copy.{fill_copied-fill}
use uvent.FastQueue.Fill.{enqueue_bulk-contents}

abbrev cells : ℕ → ℕ
cells i = i + 10

-- Elements 11 and 10, in cells 1 and 0.
abbrev two_items : Queue ℕ
two_items = record { buffer = cells; capacity = 2; head = 2 ^ 64 - 1; tail = 1; mask = 1 }

two_items-IsValid : IsValid 1 two_items
two_items-IsValid = record {
  capacity_is = refl;
  mask_is = refl;
  small = omega arith;
  head_fits = omega arith;
  tail_fits = omega arith;
  size_fits = omega arith;
}

two_items-contents : contents two_items ≡ 11 ∷ 10 ∷ []
two_items-contents = refl

enqueue_run : contents (enqueue cells two_items 7) ≡ 11 ∷ 10 ∷ 7 ∷ []
unfolding enqueue grow store move_items
enqueue_run = refl

enqueue-contents_example :
    IsValid 2 (enqueue cells two_items 7)
    × (contents (enqueue cells two_items 7) ≡ contents two_items ++ 7 ∷ [])
enqueue-contents_example = enqueue-contents cells 1 two_items 7 two_items-IsValid (omega arith)

dequeue-contents_example :
    IsValid 1 (dequeue two_items).1
    × (((dequeue two_items).0, contents (dequeue two_items).1) ≡ pop (contents two_items))
dequeue-contents_example = dequeue-contents 1 two_items two_items-IsValid

dequeue_bulk-contents_example :
    IsValid 1 (dequeue_bulk true two_items 3).1
    × ((dequeue_bulk true two_items 3).0 ≡ take 3 (contents two_items))
    × (contents (dequeue_bulk true two_items 3).1 ≡ drop 3 (contents two_items))
dequeue_bulk-contents_example = dequeue_bulk-contents true 1 two_items 3 two_items-IsValid

enqueue_bulk-contents_example :
    (l : ℕ) × (r : Queue ℕ) × (enqueue_bulk cells two_items (1 ∷ 2 ∷ 3 ∷ []) ≡ some r)
    × IsValid l r
    × (contents r ≡ contents two_items ++ 1 ∷ 2 ∷ 3 ∷ [])
enqueue_bulk-contents_example =
    enqueue_bulk-contents cells 1 two_items (1 ∷ 2 ∷ 3 ∷ []) two_items-IsValid (omega arith)

-- An empty queue whose next cell is the last one.
abbrev at_the_end : Queue ℕ
at_the_end = record { buffer = cells; capacity = 4; head = 3; tail = 3; mask = 3 }

at_the_end-IsValid : IsValid 2 at_the_end
at_the_end-IsValid = record {
  capacity_is = refl;
  mask_is = refl;
  small = omega arith;
  head_fits = omega arith;
  tail_fits = omega arith;
  size_fits = omega arith;
}

fill_copied-fill_example : fill_copied (1 ∷ 2 ∷ []) at_the_end ≡ fill (1 ∷ 2 ∷ []) at_the_end
fill_copied-fill_example =
    fill_copied-fill 2 at_the_end (1 ∷ 2 ∷ []) at_the_end-IsValid (omega arith) (omega arith)
