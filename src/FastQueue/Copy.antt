-- ===== src/FastQueue/Copy.antt =====
-- FastQueue.h: the two ways in which `enqueue_bulk` writes its elements.
use Prim.Native.Nat.{bit_and}
use native.Mathlib.Nat.{
  mod_self, mod-lt, add-mul-mod_self_right, mod-add-mod, mod-eq_of_lt, add_assoc,
}
use uvent.Common.{
  ℕ, zero, suc, ◌+◌, ◌-◌, ◌%◌, ◌^◌, ◌≤◌, ◌<◌, ◌≡◌, refl, sym, ap, ◌∙◌, List, [], ◌∷◌, ◌++◌, arith,
  take, drop, take-append-drop, ◌*◌, if◌then◌else◌, below_or_above, Bool-cases, inl, inr, ltb,
  ltb→lt, ltb-false→le, subst, length,
}
use uvent.Common.Bits.{u64, pow-pos, bit_and_mask}
use uvent.Common.Memory.{update}
use uvent.FastQueue.{Queue, store_items, copy_items, fill, fill_copied}
use uvent.FastQueue.Refine.{IsValid, cell}

-- The cell after one that is not the last.
next_cell : (k t c : ℕ) → t % 2 ^ k ≡ c → c + 1 < 2 ^ k → (t + 1) % 2 ^ k ≡ c + 1
next_cell k t c e h = sym (mod-add-mod t (2 ^ k) 1) ∙ ap (λ r. (r + 1) % 2 ^ k) e ∙ mod-eq_of_lt h

module _ {ℓ} {A : Type ℓ} where
  length-take_le : (n : ℕ) (xs : List A) → length (take n xs) ≤ n
  length-take_le zero xs = omega arith
  length-take_le (suc n) [] = omega arith
  length-take_le (suc n) (x ∷ xs) = omega (arith, length-take_le n xs)

  length-take_eq : (n : ℕ) (xs : List A) → n ≤ length xs → length (take n xs) ≡ n
  length-take_eq zero xs h = refl
  length-take_eq (suc n) [] h = absurd (omega (arith, h))
  length-take_eq (suc n) (x ∷ xs) h = ap suc (length-take_eq n xs (omega (arith, h)))

  length-drop : (n : ℕ) (xs : List A) → length (drop n xs) ≡ length xs - n
  length-drop zero xs = omega arith
  length-drop (suc n) [] = omega arith
  length-drop (suc n) (x ∷ xs) = omega (arith, length-drop n xs)

  -- Elements that do not run over the end are written to adjacent cells.
  copied_run :
      (k t i c : ℕ) (src : List A) (b : ℕ → A)
      → k ≤ 63
      → (t + i) % 2 ^ k ≡ c
      → c + length src ≤ 2 ^ k
      → store_items (2 ^ k - 1) t i src b ≡ copy_items c src b
  unfolding store_items copy_items
  copied_run k t i c [] b small e h = refl
  copied_run k t i c (x ∷ []) b small e h = ap (λ j. update b j x) (cell k (t + i) small ∙ e)
  copied_run k t i c (x ∷ y ∷ src) b small e h =
      let here : bit_and (u64 (t + i)) (2 ^ k - 1) ≡ c = cell k (t + i) small ∙ e in
      let after : (t + (i + 1)) % 2 ^ k ≡ c + 1 =
        ap (λ j. j % 2 ^ k) (sym (add_assoc t i 1)) ∙ next_cell k (t + i) c e (omega (arith, h)) in
      ap (λ j. store_items (2 ^ k - 1) t (i + 1) (y ∷ src) (update b j x)) here
      ∙ copied_run k t (i + 1) (c + 1) (y ∷ src) (update b c x) small after (omega (arith, h))

  store_items-append :
      (m t i : ℕ) (xs ys : List A) (b : ℕ → A)
      → store_items m t i (xs ++ ys) b ≡ store_items m t (i + length xs) ys (store_items m t i xs b)
  unfolding store_items
  store_items-append m t i [] ys b = let e : i + 0 ≡ i = omega arith in rw (e) refl
  store_items-append m t i (x ∷ xs) ys b =
      store_items-append m t (i + 1) xs ys (update b (bit_and (u64 (t + i)) m) x)
      ∙ ap
          (λ j.
            store_items m t j ys
              (store_items m t (i + 1) xs (update b (bit_and (u64 (t + i)) m) x)))
          (shift i (length xs))
    where
      shift : (i n : ℕ) → i + 1 + n ≡ i + suc n
      shift i n = omega arith

-- The masked end of a run of `n` elements that starts at the cell `s`.
pub end_inside : (m s n : ℕ) → s + n < m → (s + n) % m ≡ s + n
end_inside m s n h = mod-eq_of_lt h

pub end_around : (m s n : ℕ) → s < m → n ≤ m → m ≤ s + n → (s + n) % m ≡ s + n - m
end_around m s n p h r =
    let turn : s + n ≡ s + n - m + 1 * m = omega (arith, r) in
    let small : s + n - m < m = omega (arith, p, h) in
    ap (λ x. x % m) turn ∙ add-mul-mod_self_right (s + n - m) 1 m ∙ mod-eq_of_lt small

module _ {ℓ} {A : Type ℓ} (k t : ℕ) (src : List A) (b : ℕ → A) (small : k ≤ 63)
    (h : length src ≤ 2 ^ k) where
  abbrev first_cell : ℕ
  first_cell = t % 2 ^ k

  abbrev last_cell : ℕ
  last_cell = (t + length src) % 2 ^ k

  fits : first_cell < 2 ^ k
  fits = mod-lt t (pow-pos k)

  last_is : last_cell ≡ (first_cell + length src) % 2 ^ k
  last_is = sym (mod-add-mod t (2 ^ k) (length src))

  at_start : (t + 0) % 2 ^ k ≡ first_cell
  at_start = ap (λ j. j % 2 ^ k) (omega_zero t)
    where
      omega_zero : (t : ℕ) → t + 0 ≡ t
      omega_zero t = omega arith

  one_part : first_cell < last_cell → first_cell + length src ≤ 2 ^ k
  one_part less = elim (below_or_above (first_cell + length src) (2 ^ k)) [
    | inl inside ↦ omega (arith, inside)
    | inr around ↦
        absurd (
          omega (arith, less, last_is, h, end_around (2 ^ k) first_cell (length src) fits h around))
  ]

  two_parts : 1 ≤ length src → last_cell ≤ first_cell → 2 ^ k ≤ first_cell + length src
  two_parts some less = elim (below_or_above (first_cell + length src) (2 ^ k)) [
    | inl inside ↦
        absurd
          (omega (arith, less, some, last_is, end_inside (2 ^ k) first_cell (length src) inside))
    | inr around ↦ around
  ]

  around_parts :
      2 ^ k ≤ first_cell + length src
      → store_items (2 ^ k - 1) t 0 src b
        ≡ copy_items 0
            (drop (2 ^ k - first_cell) src)
            (copy_items first_cell (take (2 ^ k - first_cell) src) b)
  around_parts over =
      let f = 2 ^ k - first_cell in
      let taken : length (take f src) ≡ f = length-take_eq f src (omega (arith, over)) in
      let turn : t % 2 ^ k + (0 + length (take f src)) ≡ 2 ^ k = omega (arith, taken, fits) in
      let second : (t + (0 + length (take f src))) % 2 ^ k ≡ 0 =
        sym (mod-add-mod t (2 ^ k) (0 + length (take f src)))
        ∙ ap (λ x. x % 2 ^ k) turn
        ∙ mod_self (2 ^ k) in
      ap (λ l. store_items (2 ^ k - 1) t 0 l b) (sym (take-append-drop f src))
      ∙ store_items-append (2 ^ k - 1) t 0 (take f src) (drop f src) b
      ∙ copied_run k t (0 + length (take f src)) 0 (drop f src)
          (store_items (2 ^ k - 1) t 0 (take f src) b) small second
          (omega (arith, length-drop f src, h))
      ∙ ap (copy_items 0 (drop f src))
          (copied_run k t 0 first_cell (take f src) b small at_start (omega (arith, taken, fits)))

  parts_equal :
      1 ≤ length src
      → store_items (2 ^ k - 1) t 0 src b ≡ (
          if ltb first_cell last_cell
          then copy_items first_cell src b
          else copy_items 0
              (drop (2 ^ k - first_cell) src)
              (copy_items first_cell (take (2 ^ k - first_cell) src) b))
  parts_equal some = elim (Bool-cases (ltb first_cell last_cell)) [
    | inl e ↦ rw (e) (
        copied_run k t 0 first_cell src b small at_start (one_part (ltb→lt first_cell last_cell e)))
    | inr e ↦ rw (e) (around_parts (two_parts some (ltb-false→le first_cell last_cell e)))
  ]

module _ {ℓ} {A : Type ℓ} where
  -- For a valid queue, and at least one element and no more than the capacity, the copies of
  -- `enqueue_bulk` in one or two parts write what its loop writes, and leave the same queue.
  pub fill_copied-fill :
      (k : ℕ) (q : Queue A) (src : List A)
      → IsValid k q
      → 1 ≤ length src
      → length src ≤ q.capacity
      → fill_copied src q ≡ fill src q
  unfolding fill_copied fill
  fill_copied-fill k q src v some h =
      let parts : ℕ → ℕ → ℕ → ℕ → A = λ c s e.
        if ltb s e
        then copy_items s src q.buffer
        else copy_items 0 (drop (c - s) src) (copy_items s (take (c - s) src) q.buffer) in
      let with_buffer : (ℕ → A) → Queue A =
        λ b. record q { buffer = b; tail = u64 (q.tail + length src) } in
      let mask_to : ℕ → ℕ → ℕ = λ x m. bit_and x m in
      let end = u64 (q.tail + length src) in
      let first : bit_and q.tail q.mask ≡ q.tail % 2 ^ k =
        ap (mask_to q.tail) v.mask_is ∙ bit_and_mask k q.tail in
      let last : bit_and end q.mask ≡ (q.tail + length src) % 2 ^ k =
        ap (mask_to end) v.mask_is ∙ cell k (q.tail + length src) v.small in
      ap with_buffer (
        ap (λ s. parts q.capacity s (bit_and end q.mask)) first
        ∙ ap (λ e. parts q.capacity (q.tail % 2 ^ k) e) last
        ∙ ap (λ c. parts c (q.tail % 2 ^ k) ((q.tail + length src) % 2 ^ k)) v.capacity_is
        ∙ sym (
            parts_equal k q.tail src q.buffer v.small (subst (λ c. length src ≤ c) v.capacity_is h)
              some)
        ∙ ap (λ m. store_items m q.tail 0 src q.buffer) (sym v.mask_is))
