-- ===== src/FastQueue/Bulk.antt =====
-- FastQueue.h: taking elements out, one or many at a time.
use Prim.Native.Nat.{bit_and}
use native.Mathlib.Nat.{mod-add-mod}
use uvent.Common.{
  ℕ, zero, suc, ◌+◌, ◌%◌, ◌^◌, ◌≤◌, ◌<◌, ◌≡◌, refl, sym, ap, ap₂, ◌∙◌, List, [], ◌∷◌, ◌++◌, arith,
  length, Bool-cases, ==-false→ne, ==_iff, inl, inr, Option, none, some, ◌==◌, take, drop,
  take_append, drop_append,
}
use uvent.Common.Bits.{u64}
use uvent.FastQueue.{Queue, size, dequeue, normalize_if_empty, take_items}
use uvent.FastQueue.Window.{
  tabulate, tabulate_ext, tabulate-append, tabulate_shift, length-tabulate, u64_mod,
}
use uvent.FastQueue.Refine.{IsValid, contents, valid_cell, pow_le}

-- A wrapped start reaches the same cells.
wrapped_cell : (k y j : ℕ) → k ≤ 63 → (u64 y + j) % 2 ^ k ≡ (y + j) % 2 ^ k
wrapped_cell k y j h =
    sym (mod-add-mod (u64 y) (2 ^ k) j)
    ∙ ap (λ r. (r + j) % 2 ^ k) (u64_mod k y (omega arith))
    ∙ mod-add-mod y (2 ^ k) j

add_assoc : (a b c : ℕ) → a + (b + c) ≡ a + b + c
add_assoc a b c = omega arith

plus_zero : (a : ℕ) → a < 2 ^ 64 → a ≡ u64 (a + 0)
plus_zero a h = omega arith

module _ {ℓ} {A : Type ℓ} where
  -- The queue whose first `n` elements are gone.
  abbrev pub advanced : Queue A → ℕ → Queue A
  advanced q n = record q { head = u64 (q.head + n) }

  abbrev pub elements : Queue A → ℕ → A
  elements q j = q.buffer ((q.head + j) % q.capacity)

  pub size-advanced :
      (k : ℕ) (q : Queue A) (n : ℕ) → IsValid k q → n ≤ size q → size q ≡ n + size (advanced q n)
  size-advanced k q n v h =
      let fits = pow_le k 63 v.small in
      omega (arith, fits, v.size_fits, v.head_fits, v.tail_fits, h)

  pub advanced-IsValid :
      (k : ℕ) (q : Queue A) (n : ℕ) → IsValid k q → n ≤ size q → IsValid k (advanced q n)
  advanced-IsValid k q n v h =
      let left = size-advanced k q n v h in
      record {
        capacity_is = v.capacity_is;
        mask_is = v.mask_is;
        small = v.small;
        head_fits = omega arith;
        tail_fits = v.tail_fits;
        size_fits = omega (arith, left, v.size_fits);
      }

  pub advanced-contents :
      (k : ℕ) (q : Queue A) (n : ℕ)
      → IsValid k q
      → n ≤ size q
      → contents q ≡ tabulate (elements q) 0 n ++ contents (advanced q n)
  advanced-contents k q n v h =
      let m = size (advanced q n) in
      let plus : 0 + n ≡ n + 0 = omega arith in
      let cells : (j : ℕ) → 0 ≤ j → j < 0 + m → elements q (n + j) ≡ elements (advanced q n) j =
        λ j _ _. ap q.buffer (
          rw (v.capacity_is) (
            ap (λ x. x % 2 ^ k) (add_assoc q.head n j)
            ∙ sym (wrapped_cell k (q.head + n) j v.small))) in
      ap (tabulate (elements q) 0) (size-advanced k q n v h)
      ∙ tabulate-append (elements q) 0 n m
      ∙ ap (λ l. tabulate (elements q) 0 n ++ l)
          (ap (λ i. tabulate (elements q) i m) plus
            ∙ tabulate_shift (elements q) n 0 m
            ∙ tabulate_ext (λ j. elements q (n + j)) (elements (advanced q n)) 0 m cells)

  -- Resetting an empty queue changes no element.
  pub normalize-contents :
      (k : ℕ) (q : Queue A)
      → IsValid k q
      → IsValid k (normalize_if_empty q) × (contents (normalize_if_empty q) ≡ contents q)
  unfolding normalize_if_empty
  normalize-contents k q v = elim (Bool-cases (q.head == q.tail)) [
    | inl empty ↦
        let none_left : size q ≡ 0 = omega (arith, (==_iff q.head q.tail).0 empty, v.head_fits) in
        let valid : IsValid k (record q { head = 0; tail = 0 }) = record {
          capacity_is = v.capacity_is;
          mask_is = v.mask_is;
          small = v.small;
          head_fits = omega arith;
          tail_fits = omega arith;
          size_fits = omega arith;
        } in
        rw (empty) (valid, sym (ap (tabulate (elements q) 0) none_left))
    | inr more ↦ rw (more) (v, refl)
  ]

  -- What both ways of taking elements end with.
  taken :
      (k : ℕ) (q : Queue A) (n : ℕ) (xs : List A)
      → IsValid k q
      → n ≤ size q
      → xs ≡ tabulate (elements q) 0 n
      → IsValid k (normalize_if_empty (advanced q n))
        × (contents q ≡ xs ++ contents (normalize_if_empty (advanced q n)))
        × (length xs ≡ n)
  taken k q n xs v h e =
      let rest = normalize-contents k (advanced q n) (advanced-IsValid k q n v h) in
      (
        rest.0,
        advanced-contents k q n v h ∙ ap₂ ◌++◌ (sym e) (sym rest.1),
        ap length e ∙ length-tabulate (elements q) 0 n,
      )

  pub take_items-elements :
      (k : ℕ) (q : Queue A) (n i : ℕ) → IsValid k q → take_items q n i ≡ tabulate (elements q) i n
  unfolding take_items
  take_items-elements k q zero i v = refl
  take_items-elements k q (suc n) i v =
      ap₂ ◌∷◌ (ap q.buffer (valid_cell k q v (q.head + i))) (take_items-elements k q n (i + 1) v)

  -- What the list queue does.
  abbrev pub pop : List A → Option A × List A
  pop [] = (none, [])
  pop (x ∷ xs) = (some x, xs)

  -- `dequeue` on a valid queue gives the oldest element and leaves the others, gives nothing when
  -- there is none, and leaves a valid queue of the same capacity.
  pub dequeue-contents :
      (k : ℕ) (q : Queue A)
      → IsValid k q
      → IsValid k (dequeue q).1 × (((dequeue q).0, contents (dequeue q).1) ≡ pop (contents q))
  unfolding dequeue
  dequeue-contents k q v = elim (Bool-cases (q.head == q.tail)) [
    | inl empty ↦
        let none_left : size q ≡ 0 = omega (arith, (==_iff q.head q.tail).0 empty, v.head_fits) in
        rw (empty, none_left) (v, refl)
    | inr more ↦
        let some_left : 1 ≤ size q =
          omega (arith, ==-false→ne q.head q.tail more, v.head_fits, v.tail_fits) in
        let first = q.buffer (bit_and q.head q.mask) in
        let at : bit_and q.head q.mask ≡ (q.head + 0) % q.capacity =
          ap (λ x. bit_and x q.mask) (plus_zero q.head v.head_fits)
          ∙ valid_cell k q v (q.head + 0) in
        let t = taken k q 1 (first ∷ []) v some_left (ap (λ c. q.buffer c ∷ []) at) in
        rw (more) (t.0, sym (ap pop t.1))
  ]

  pub taken_items :
      (k : ℕ) (q : Queue A) (n : ℕ)
      → IsValid k q
      → n ≤ size q
      → IsValid k (normalize_if_empty (advanced q n))
        × (take_items q n 0 ≡ take n (contents q))
        × (contents (normalize_if_empty (advanced q n)) ≡ drop n (contents q))
  taken_items k q n v h =
      let xs = take_items q n 0 in
      let t = taken k q n xs v h (take_items-elements k q n 0 v) in
      let ys = contents (normalize_if_empty (advanced q n)) in
      (
        t.0,
        sym (take_append xs ys) ∙ ap₂ take t.2 (sym t.1),
        sym (drop_append xs ys) ∙ ap₂ drop t.2 (sym t.1),
      )
