-- ===== src/FastQueue/Out.antt =====
-- FastQueue.h: the two ways in which `dequeue_bulk` reads its elements.
use Prim.Native.Nat.{bit_and}
use native.Mathlib.Nat.{mod-lt, mod-add-mod, mod-eq_of_lt}
use uvent.Common.{
  ℕ, zero, suc, ◌+◌, ◌-◌, ◌%◌, ◌^◌, ◌≤◌, ◌<◌, ◌≡◌, refl, sym, ap, ap₂, ◌∙◌, List, [], ◌∷◌, ◌++◌,
  arith, Bool, true, false, Bool-cases, ==_iff, inl, inr, ◌==◌, take, drop, ltb, take_past, ltb→lt,
  ltb-false→le, below_or_above, if◌then◌else◌, ==-false→ne,
}
use uvent.Common.Bits.{u64, pow-pos, bit_and_mask}
use uvent.FastQueue.{Queue, size, normalize_if_empty, copy_out, parts_out, dequeue_bulk, take_items}
use uvent.FastQueue.Window.{tabulate, tabulate-append, length-tabulate}
use uvent.FastQueue.Refine.{IsValid, contents, cell}
use uvent.FastQueue.Copy.{end_around}
use uvent.FastQueue.Bulk.{advanced, elements, taken_items, take_items-elements}

module _ {ℓ} {A : Type ℓ} where
  copy_out-tabulate : (b : ℕ → A) (i n : ℕ) → copy_out b i n ≡ tabulate b i n
  unfolding copy_out
  copy_out-tabulate b i zero = refl
  copy_out-tabulate b i (suc n) = ap (λ l. b i ∷ l) (copy_out-tabulate b (i + 1) n)

  -- Adjacent cells are a run of elements that starts at the element `j`.
  copied_out :
      (m h : ℕ) (b : ℕ → A) (s j n : ℕ)
      → ((i : ℕ) → i < n → (h + (j + i)) % m ≡ s + i)
      → copy_out b s n ≡ tabulate (λ x. b ((h + x) % m)) j n
  unfolding copy_out
  copied_out m h b s j zero same = refl
  copied_out m h b s j (suc n) same =
      let first : (h + j) % m ≡ s =
        ap (λ x. (h + x) % m) (plus_zero j) ∙ same 0 (omega arith) ∙ sym (plus_zero s) in
      ap₂ ◌∷◌ (ap b (sym first)) (
        copied_out m h b (s + 1) (j + 1) n
          (λ i l. ap (λ x. (h + x) % m) (shift j i) ∙ same (suc i) (omega arith) ∙ sym (shift s i)))
    where
      plus_zero : (j : ℕ) → j ≡ j + 0
      plus_zero j = omega arith

      shift : (j i : ℕ) → j + 1 + i ≡ j + suc i
      shift j i = omega arith

  module _ (m h n : ℕ) (b : ℕ → A) (positive : 0 < m) (few : n ≤ m) where
    abbrev s : ℕ
    s = h % m

    start_fits : s < m
    start_fits = mod-lt h positive

    cell_from : (i : ℕ) → (h + i) % m ≡ (s + i) % m
    cell_from i = sym (mod-add-mod h m i)

    inside : (j : ℕ) → s + j < m → (h + j) % m ≡ s + j
    inside j l = cell_from j ∙ mod-eq_of_lt l

    zero_plus : (i : ℕ) → 0 + i ≡ i
    zero_plus i = omega arith

    inside_first : (i : ℕ) → s + i < m → (h + (0 + i)) % m ≡ s + i
    inside_first i l = ap (λ x. (h + x) % m) (zero_plus i) ∙ inside i l

    around : (j : ℕ) → m ≤ s + j → j ≤ m → (h + j) % m ≡ s + j - m
    around j l u = cell_from j ∙ end_around m s j start_fits u l

    whole : s + n ≤ m → copy_out b s n ≡ tabulate (λ x. b ((h + x) % m)) 0 n
    whole room = copied_out m h b s 0 n (λ i l. inside_first i (omega (arith, l, room)))

    parts :
        m ≤ s + n
        → copy_out b s (m - s) ++ copy_out b 0 (n - (m - s)) ≡ tabulate (λ x. b ((h + x) % m)) 0 n
    parts over =
        let cut : n ≡ (m - s) + (n - (m - s)) = omega (arith, over, start_fits) in
        ap₂ ◌++◌ (copied_out m h b s 0 (m - s) (λ i l. inside_first i (omega (arith, l)))) (
          copied_out m h b 0 (m - s) (n - (m - s)) (λ i l.
            around (m - s + i) (omega (arith, start_fits)) (omega (arith, l, few, start_fits))
            ∙ omega (arith, start_fits)))
        ∙ ap
            (λ i.
              tabulate (λ x. b ((h + x) % m)) 0 (m - s)
              ++ tabulate (λ x. b ((h + x) % m)) i (n - (m - s)))
            (sym (zero_plus (m - s)))
        ∙ sym (tabulate-append (λ x. b ((h + x) % m)) 0 (m - s) (n - (m - s)))
        ∙ ap (tabulate (λ x. b ((h + x) % m)) 0) (sym cut)

    either :
        1 ≤ n
        → (if ltb s ((h + n) % m)
            then copy_out b s n
            else copy_out b s (m - s) ++ copy_out b 0 (n - (m - s)))
          ≡ tabulate (λ x. b ((h + x) % m)) 0 n
    either some = elim (Bool-cases (ltb s ((h + n) % m))) [
      | inl e ↦ rw (e) (
          whole (elim (below_or_above (s + n) m) [
            | inl less ↦ omega (arith, less)
            | inr over ↦ absurd (omega (arith, ltb→lt s ((h + n) % m) e, around n over few, few))
          ]))
      | inr e ↦ rw (e) (
          parts (elim (below_or_above (s + n) m) [
            | inl less ↦ absurd (omega (arith, ltb-false→le s ((h + n) % m) e, inside n less, some))
            | inr over ↦ over
          ]))
    ]

module _ {ℓ} {A : Type ℓ} where
  -- What the copies read is what the loop reads.
  parts_out-take_items :
      (k : ℕ) (q : Queue A) (n : ℕ)
      → IsValid k q
      → 1 ≤ n
      → n ≤ size q
      → parts_out (bit_and q.head q.mask) (bit_and (u64 (q.head + n)) q.mask) n q ≡ take_items q n 0
  parts_out-take_items k q n v some h =
      let end = u64 (q.head + n) in
      let parts : ℕ → ℕ → ℕ → List A = λ c s e.
        if ltb s e
        then copy_out q.buffer s n
        else copy_out q.buffer s (c - s) ++ copy_out q.buffer 0 (n - (c - s)) in
      let first : bit_and q.head q.mask ≡ q.head % 2 ^ k =
        ap (bit_and q.head) v.mask_is ∙ bit_and_mask k q.head in
      let last : bit_and end q.mask ≡ (q.head + n) % 2 ^ k =
        ap (bit_and end) v.mask_is ∙ cell k (q.head + n) v.small in
      ap (λ s. parts q.capacity s (bit_and end q.mask)) first
      ∙ ap (λ e. parts q.capacity (q.head % 2 ^ k) e) last
      ∙ ap (λ c. parts c (q.head % 2 ^ k) ((q.head + n) % 2 ^ k)) v.capacity_is
      ∙ either (2 ^ k) q.head n q.buffer (pow-pos k) (omega (arith, h, v.size_fits)) some
      ∙ ap (λ c. tabulate (λ x. q.buffer ((q.head + x) % c)) 0 n) (sym v.capacity_is)
      ∙ sym (take_items-elements k q n 0 v)

  -- Both ways, with what is left.
  taken_out :
      (copyable : Bool) (k : ℕ) (q : Queue A) (n : ℕ)
      → IsValid k q
      → 1 ≤ n
      → n ≤ size q
      → IsValid k (normalize_if_empty (advanced q n))
        × ((if copyable
              then parts_out (bit_and q.head q.mask) (bit_and (u64 (q.head + n)) q.mask) n q
              else take_items q n 0)
            ≡ take n (contents q))
        × (contents (normalize_if_empty (advanced q n)) ≡ drop n (contents q))
  taken_out true k q n v some h =
      let t = taken_items k q n v h in (t.0, parts_out-take_items k q n v some h ∙ t.1, t.2)
  taken_out false k q n v some h = taken_items k q n v h

  -- `dequeue_bulk` on a valid queue, with its copies for trivially copyable elements and with its loop for
  -- others, gives the oldest elements, as many as are asked for and there, leaves the others, and leaves a
  -- valid queue of the same capacity.
  pub dequeue_bulk-contents :
      (copyable : Bool) (k : ℕ) (q : Queue A) (max_count : ℕ)
      → IsValid k q
      → IsValid k (dequeue_bulk copyable q max_count).1
        × ((dequeue_bulk copyable q max_count).0 ≡ take max_count (contents q))
        × (contents (dequeue_bulk copyable q max_count).1 ≡ drop max_count (contents q))
  unfolding dequeue_bulk
  dequeue_bulk-contents copyable k q zero v = elim (Bool-cases (size q == 0)) [
    | inl e ↦ rw (e) (v, refl, refl)
    | inr e ↦ rw (e) (v, refl, refl)
  ]
  dequeue_bulk-contents copyable k q (suc m) v = elim (Bool-cases (size q == 0)) [
    | inl e ↦
        let none_left : contents q ≡ [] = ap (tabulate (elements q) 0) ((==_iff (size q) 0).0 e) in
        rw (e) (v, sym (ap (take (suc m)) none_left), none_left ∙ sym (ap (drop (suc m)) none_left))
    | inr there ↦
        let asked : (suc m == 0) ≡ false = ground arith in
        let some : 1 ≤ size q = omega (arith, ==-false→ne (size q) 0 there) in
        elim (Bool-cases (ltb (size q) (suc m))) [
          | inl past ↦
              let long = length-tabulate (elements q) 0 (size q) in
              let all =
                take_past (contents q) (suc m)
                  (omega (arith, long, ltb→lt (size q) (suc m) past)) in
              let t = taken_out copyable k q (size q) v some (omega arith) in
              rw (there, asked, past)
                (
                  t.0,
                  t.1 ∙ ap (λ n. take n (contents q)) (sym long) ∙ sym all.0,
                  t.2 ∙ ap (λ n. drop n (contents q)) (sym long) ∙ sym all.1,
                )
          | inr within ↦
              rw (there, asked, within)
                (taken_out copyable k q (suc m) v (omega arith)
                  (ltb-false→le (size q) (suc m) within))
        ]
  ]
