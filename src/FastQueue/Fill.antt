-- ===== src/FastQueue/Fill.antt =====
-- FastQueue.h: `enqueue_bulk`, which makes room for all elements and then writes them.
use Prim.Native.Nat.{bit_and}
use mathlib.Core.Option
use uvent.Common.{
  ℕ, zero, suc, ◌+◌, ◌^◌, ◌≤◌, ◌<◌, ◌≡◌, refl, sym, subst, ap, ◌∙◌, List, [], ◌∷◌, ◌++◌, arith,
  length, Bool-cases, ℕ-cases, inl, inr, some, ltb, ltb→lt, ltb-false→le,
}
use uvent.Common.Bits.{u64}
use uvent.Common.Memory.{update}
use uvent.FastQueue.{Queue, size, store, grow, grow_until, store_items, fill, enqueue_bulk}
use uvent.FastQueue.Refine.{
  IsValid, contents, size-store, store-IsValid, store-contents, grow-IsValid, grow-contents,
}

next_tail : (t i : ℕ) → u64 (t + (i + 1)) ≡ u64 (u64 (t + i) + 1)
next_tail t i = omega arith

move_one : (i n : ℕ) → i + suc n ≡ i + 1 + n
move_one i n = omega arith

module _ {ℓ} {A : Type ℓ} where
  append_cons : (xs : List A) (y : A) (ys : List A) → (xs ++ y ∷ []) ++ ys ≡ xs ++ y ∷ ys
  append_cons [] y ys = refl
  append_cons (x ∷ xs) y ys = ap (λ l. x ∷ l) (append_cons xs y ys)

  append_nil : (xs : List A) → xs ≡ xs ++ []
  append_nil [] = refl
  append_nil (x ∷ xs) = ap (λ l. x ∷ l) (append_nil xs)

  -- Elements stored one by one.
  abbrev store_all : Queue A → List A → Queue A
  store_all q [] = q
  store_all q (x ∷ src) = store_all (store q x) src

  store_all-contents :
      (k : ℕ) (q : Queue A) (src : List A)
      → IsValid k q
      → size q + length src ≤ 2 ^ k
      → IsValid k (store_all q src) × (contents (store_all q src) ≡ contents q ++ src)
  store_all-contents k q [] v h = (v, append_nil (contents q))
  store_all-contents k q (x ∷ src) v h =
      let room : size q < 2 ^ k = omega arith in
      let rest =
        store_all-contents k (store q x) src (store-IsValid k q x v room)
          (omega (arith, size-store k q x v room)) in
      (
        rest.0,
        rest.1 ∙ ap (λ l. l ++ src) (store-contents k q x v room) ∙ append_cons (contents q) x src,
      )

  -- The loop of `enqueue_bulk` stores the elements one by one.
  store_items-store_all :
      (q : Queue A) (t i : ℕ) (src : List A) (b : ℕ → A)
      → record q { buffer = store_items q.mask t i src b; tail = u64 (t + (i + length src)) }
        ≡ store_all (record q { buffer = b; tail = u64 (t + i) }) src
  unfolding store_items store
  store_items-store_all q t i [] b =
      let e : i + 0 ≡ i = omega arith in ap (λ n. record q { buffer = b; tail = u64 (t + n) }) e
  store_items-store_all q t i (x ∷ src) b =
      let b' = update b (bit_and (u64 (t + i)) q.mask) x in
      ap (λ n. record q { buffer = store_items q.mask t (i + 1) src b'; tail = u64 (t + n) })
        (move_one i (length src))
      ∙ store_items-store_all q t (i + 1) src b'
      ∙ ap (λ n. store_all (record q { buffer = b'; tail = n }) src) (next_tail t i)

  filled_lem : (k : ℕ) (q : Queue A) (src : List A) → IsValid k q → fill src q ≡ store_all q src
  unfolding fill
  filled_lem k q src v =
      let none_before : length src ≡ 0 + length src = omega arith in
      let start : u64 (q.tail + 0) ≡ q.tail = omega (arith, v.tail_fits) in
      ap
        (λ n. record q {
          buffer = store_items q.mask q.tail 0 src q.buffer;
          tail = u64 (q.tail + n);
        })
        none_before
      ∙ store_items-store_all q q.tail 0 src q.buffer
      ∙ ap (λ n. store_all (record q { tail = n }) src) start

  -- Growing ends with room for what is needed, and keeps the elements.
  grow_until-HasRoom :
      (raw : ℕ → A) (fuel need k : ℕ) (q : Queue A)
      → IsValid k q
      → need ≤ 2 ^ 63
      → 64 < fuel + k
      → (l : ℕ) × (r : Queue A) × (grow_until raw fuel need q ≡ some r)
        × IsValid l r
        × (need ≤ 2 ^ l)
        × (contents r ≡ contents q)
        × (size r ≡ size q)
  unfolding grow_until
  grow_until-HasRoom raw zero need k q v n f = absurd (omega (arith, v.small))
  grow_until-HasRoom raw (suc fuel) need k q v n f = elim (Bool-cases (ltb q.capacity need)) [
    | inl less ↦ elim (ℕ-cases k 63) [
      | inl e ↦
          let whole : 2 ^ k ≡ 2 ^ 63 = ap (λ j. 2 ^ j) e in
          absurd (omega (arith, whole, ltb→lt q.capacity need less, v.capacity_is))
      | inr d ↦
          let below : k < 63 = omega (arith, v.small, d) in
          let g = grow-IsValid raw k q v below in
          let rest = grow_until-HasRoom raw fuel need (suc k) (grow raw q) g.0 n (omega arith) in
          (
            rest.0,
            rest.1,
            rw (less) rest.2,
            rest.3,
            rest.4,
            rest.5 ∙ grow-contents raw k q v below,
            rest.6 ∙ g.1,
          )
    ]
    | inr enough ↦ (
      k,
      q,
      rw (enough) refl,
      v,
      omega (arith, ltb-false→le q.capacity need enough, v.capacity_is),
      refl,
      refl,
    )
  ]

  -- `enqueue_bulk` on a valid queue returns when the elements before and the new ones are at most
  -- `2^63`; it leaves a valid queue that holds the elements before, then the new ones.
  pub enqueue_bulk-contents :
      (raw : ℕ → A) (k : ℕ) (q : Queue A) (src : List A)
      → IsValid k q
      → size q + length src ≤ 2 ^ 63
      → (l : ℕ) × (r : Queue A) × (enqueue_bulk raw q src ≡ some r)
        × IsValid l r
        × (contents r ≡ contents q ++ src)
  unfolding enqueue_bulk
  enqueue_bulk-contents raw k q [] v h = (k, q, refl, v, append_nil (contents q))
  enqueue_bulk-contents raw k q (x ∷ src) v h =
      let need = size q + length (x ∷ src) in
      let g = grow_until-HasRoom raw 65 need k q v h (omega arith) in
      let filled = store_all-contents g.0 g.1 (x ∷ src) g.3 (omega (arith, g.4, g.6)) in
      let is = filled_lem g.0 g.1 (x ∷ src) g.3 in
      (
        g.0,
        fill (x ∷ src) g.1,
        ap (Option.map (fill (x ∷ src))) g.2,
        subst (λ s. IsValid g.0 s) (sym is) filled.0,
        ap contents is ∙ filled.1 ∙ ap (λ l. l ++ x ∷ src) g.5,
      )
