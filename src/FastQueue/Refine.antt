-- ===== src/FastQueue/Refine.antt =====
-- FastQueue.h against a list: the invariant of `Queue`, and `enqueue`, `dequeue` and `grow` under it.
use Prim.Native.Nat.{bit_and}
use native.Mathlib.Nat.{pow-suc, div-add-mod, mod-eq_of_lt}
use uvent.Common.{
  if◌then◌else◌, ℕ, zero, suc, ◌+◌, ◌-◌, ◌*◌, ◌%◌, ◌^◌, ◌≤◌, ◌<◌, ◌≡◌, refl, sym, ap, ap₂, ◌∙◌, ◌≢◌,
  List, [], ◌∷◌, ◌++◌, arith, Bool-cases, ==-false→ne, ℕ-cases, inl, inr, ◌==◌, subst,
}
use uvent.Common.Bits.{u64, bit_and_mask, pow-pos}
use uvent.Common.Memory.{update, update_self, update_ne}
use uvent.FastQueue.{Queue, size, store, grow, move_items, enqueue}
use uvent.FastQueue.Window.{pow_add, tabulate, tabulate_ext, tabulate-append, u64_mod}

module _ {ℓ} {A : Type ℓ} where
  -- The capacity is `2^k`; `head` and `tail` may have wrapped, and their distance is the size.
  pub record IsValid (k : ℕ) (q : Queue A) : Type 0 where
    pub capacity_is : q.capacity ≡ 2 ^ k
    pub mask_is : q.mask ≡ 2 ^ k - 1
    pub small : k ≤ 63
    pub head_fits : q.head < 2 ^ 64
    pub tail_fits : q.tail < 2 ^ 64
    pub size_fits : size q ≤ 2 ^ k

  -- The elements that wait, the oldest first.
  abbrev pub contents : Queue A → List A
  contents q = tabulate (λ j. q.buffer ((q.head + j) % q.capacity)) 0 (size q)

pub pow_le : (k m : ℕ) → k ≤ m → 2 ^ k ≤ 2 ^ m
pow_le k m h =
    let e : k + (m - k) ≡ m = omega arith in
    let whole : 2 ^ (k + (m - k)) ≡ 2 ^ m = ap (λ n. 2 ^ n) e in
    grind (arith, whole, pow_add k (m - k), pow-pos (m - k))

-- Two positions less than a capacity apart have different cells.
pub cells_ne : (a b c : ℕ) → a < b → b < a + c → a % c ≢ b % c
cells_ne a b c p r e = absurd (grind (arith, div-add-mod a c, div-add-mod b c))

tail_of : (h t : ℕ) → h < 2 ^ 64 → t < 2 ^ 64 → t ≡ u64 (h + u64 (t + 2 ^ 64 - h))
tail_of h t p r = omega arith

-- The cell of a masked index.
pub cell : (k x : ℕ) → k ≤ 63 → bit_and (u64 x) (2 ^ k - 1) ≡ x % 2 ^ k
cell k x h = bit_and_mask k (u64 x) ∙ u64_mod k x (omega arith)

-- The cell that the next element goes to.
tail_cell :
    (k h t : ℕ)
    → k ≤ 63
    → h < 2 ^ 64
    → t < 2 ^ 64
    → bit_and t (2 ^ k - 1) ≡ (h + u64 (t + 2 ^ 64 - h)) % 2 ^ k
tail_cell k h t small p r =
    ap (λ x. bit_and x (2 ^ k - 1)) (tail_of h t p r) ∙ cell k (h + u64 (t + 2 ^ 64 - h)) small

zero_plus : (n : ℕ) → 0 + n ≡ n
zero_plus n = omega arith

module _ {ℓ} {A : Type ℓ} where
  pub valid_cell :
      (k : ℕ) (q : Queue A) → IsValid k q → (x : ℕ) → bit_and (u64 x) q.mask ≡ x % q.capacity
  valid_cell k q v x = rw (v.mask_is, v.capacity_is) (cell k x v.small)

  pub size-store :
      (k : ℕ) (q : Queue A) (x : A) → IsValid k q → size q < 2 ^ k → size (store q x) ≡ size q + 1
  unfolding store
  size-store k q x v h = omega (arith, pow_le k 63 v.small, h, v.head_fits, v.tail_fits)

  pub store-contents :
      (k : ℕ) (q : Queue A) (x : A)
      → IsValid k q
      → size q < 2 ^ k
      → contents (store q x) ≡ contents q ++ x ∷ []
  unfolding store
  store-contents k q x v h =
      let n = size q in
      let f = λ (j : ℕ). q.buffer ((q.head + j) % q.capacity) in
      let f' = λ (j : ℕ). (store q x).buffer ((q.head + j) % q.capacity) in
      let at : bit_and q.tail q.mask ≡ (q.head + n) % q.capacity =
        rw (v.mask_is, v.capacity_is) (tail_cell k q.head q.tail v.small v.head_fits v.tail_fits) in
      let old : (j : ℕ) → 0 ≤ j → j < 0 + n → f' j ≡ f j = λ j _ r. update_ne q.buffer x (λ e.
        cells_ne (q.head + j) (q.head + n) q.capacity (omega arith)
          (omega (arith, h, v.capacity_is)) (e ∙ at)) in
      let none_before : 0 + n ≡ n = omega arith in
      let new : f' (0 + n) ≡ x =
        ap f' none_before
        ∙ subst (λ i. update q.buffer i x ((q.head + n) % q.capacity) ≡ x) (sym at)
            (update_self q.buffer ((q.head + n) % q.capacity) x) in
      ap (tabulate f' 0) (size-store k q x v h)
      ∙ tabulate-append f' 0 n 1
      ∙ ap₂ ◌++◌ (tabulate_ext f' f 0 n old) (ap (λ y. y ∷ []) new)

  pub store-IsValid :
      (k : ℕ) (q : Queue A) (x : A) → IsValid k q → size q < 2 ^ k → IsValid k (store q x)
  unfolding store
  store-IsValid k q x v h =
      let small = pow_le k 63 v.small in
      let size_grows : u64 (u64 (q.tail + 1) + 2 ^ 64 - q.head) ≤ 2 ^ k =
        omega (arith, small, h, v.head_fits, v.tail_fits) in
      record {
        capacity_is = v.capacity_is;
        mask_is = v.mask_is;
        small = v.small;
        head_fits = v.head_fits;
        tail_fits = omega arith;
        size_fits = size_grows;
      }

  -- What `grow` has moved, and what it leaves alone.
  move_items-before :
      (q : Queue A) (n i : ℕ) (new_buf : ℕ → A) (j : ℕ)
      → j < i
      → move_items q n i new_buf j ≡ new_buf j
  unfolding move_items
  move_items-before q zero i new_buf j h = refl
  move_items-before q (suc n) i new_buf j h =
      let differ : j ≢ i = λ e. absurd (omega (arith, e)) in
      move_items-before q n (i + 1) _ j (omega arith) ∙ update_ne new_buf _ differ

  move_items-at :
      (q : Queue A) (n i : ℕ) (new_buf : ℕ → A) (j : ℕ)
      → i ≤ j
      → j < i + n
      → move_items q n i new_buf j ≡ q.buffer (bit_and (u64 (q.head + j)) q.mask)
  unfolding move_items
  move_items-at q zero i new_buf j p r = absurd (omega arith)
  move_items-at q (suc n) i new_buf j p r =
      let at = q.buffer (bit_and (u64 (q.head + i)) q.mask) in
      elim (ℕ-cases i j) [
        | inl e ↦
            subst
              (λ x.
                move_items q n (i + 1) (update new_buf i at) x
                ≡ q.buffer (bit_and (u64 (q.head + x)) q.mask))
              e
              (move_items-before q n (i + 1) (update new_buf i at) i (omega arith)
                ∙ update_self new_buf i at)
        | inr d ↦ move_items-at q n (i + 1) (update new_buf i at) j (omega (arith, d)) (omega arith)
      ]

  pub grow-IsValid :
      (raw : ℕ → A) (k : ℕ) (q : Queue A)
      → IsValid k q
      → k < 63
      → (IsValid (suc k) (grow raw q)) × (size (grow raw q) ≡ size q)
  unfolding grow
  grow-IsValid raw k q v h =
      let fits = pow_le k 62 (omega arith) in
      let doubled : u64 (q.capacity * 2) ≡ 2 ^ suc k =
        omega (arith, v.capacity_is, pow-suc 2 k, fits) in
      let same : u64 (size q + 2 ^ 64 - 0) ≡ size q = omega arith in
      let valid : IsValid (suc k) (grow raw q) = record {
        capacity_is = doubled;
        mask_is = omega (arith, doubled, pow-pos (suc k));
        small = omega arith;
        head_fits = omega arith;
        tail_fits = omega arith;
        size_fits = omega (arith, same, v.size_fits, pow-suc 2 k);
      } in
      (valid, same)

  pub grow-contents :
      (raw : ℕ → A) (k : ℕ) (q : Queue A)
      → IsValid k q
      → k < 63
      → contents (grow raw q) ≡ contents q
  unfolding grow
  grow-contents raw k q v h =
      let g = grow-IsValid raw k q v h in
      let moved = λ (j : ℕ). (grow raw q).buffer ((0 + j) % (grow raw q).capacity) in
      let old = λ (j : ℕ). q.buffer ((q.head + j) % q.capacity) in
      let each : (j : ℕ) → 0 ≤ j → j < 0 + size q → moved j ≡ old j = λ j _ r.
        let inside : (0 + j) % (grow raw q).capacity ≡ j =
          ap (λ x. x % (grow raw q).capacity) (zero_plus j)
          ∙ mod-eq_of_lt (omega (arith, g.0.capacity_is, v.size_fits, r, pow-suc 2 k)) in
        ap (move_items q (size q) 0 raw) inside
        ∙ move_items-at q (size q) 0 raw j (omega arith) r
        ∙ ap q.buffer (valid_cell k q v (q.head + j)) in
      ap (tabulate moved 0) g.1 ∙ tabulate_ext moved old 0 (size q) each

  -- `enqueue` on a valid queue of capacity `2^k`, with `k` below 63, appends its element to the
  -- contents and leaves a valid queue, of the doubled capacity if the queue was full and of the same
  -- capacity if not.
  pub enqueue-contents :
      (raw : ℕ → A) (k : ℕ) (q : Queue A) (x : A)
      → IsValid k q
      → k < 63
      → IsValid (if size q == q.capacity then suc k else k) (enqueue raw q x)
        × (contents (enqueue raw q x) ≡ contents q ++ x ∷ [])
  unfolding enqueue
  enqueue-contents raw k q x v h = elim (Bool-cases (size q == q.capacity)) [
    | inl full ↦
        let g = grow-IsValid raw k q v h in
        let room : size (grow raw q) < 2 ^ suc k =
          omega (arith, g.1, v.size_fits, pow-suc 2 k, pow-pos k) in
        rw (full) (
          store-IsValid (suc k) (grow raw q) x g.0 room,
          store-contents (suc k) (grow raw q) x g.0 room
              ∙ ap (λ l. l ++ x ∷ []) (grow-contents raw k q v h),
        )
    | inr free ↦
        let room : size q < 2 ^ k =
          omega (arith, ==-false→ne (size q) q.capacity free, v.capacity_is, v.size_fits) in
        rw (free) (store-IsValid k q x v room, store-contents k q x v room)
  ]
