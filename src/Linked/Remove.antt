-- ===== src/Linked/Remove.antt =====
-- The list of waiters: taking a waiter out wherever it stands.
use uvent.Common.{
  ℕ, ◌≡◌, ◌≢◌, inl, inr, refl, sym, subst, ◌∙◌, arith, true, false, ◌==◌, ==_iff, Bool-cases,
  if◌then◌else◌, List, [], ◌∷◌, ◌++◌, In, In-append, In-append_left, In-append_right, length-append,
}
use uvent.Common.Memory.{update, update_ne, update_cases}
use uvent.Linked.{Waiter, WaitList, set_next, set_prev, unlinked, remove_locked}
use uvent.Linked.Chain.{
  first, last, IsChain, IsDistinct, IsChain-elsewhere, IsChain-split, IsChain-append, set_next_ne,
  set_prev_ne, IsChain-set_next, IsChain-set_prev, last-append,
}
use uvent.Linked.Distinct.{
  distinct_nonzero, IsDistinct-left, IsDistinct-right, distinct_apart, IsDistinct-append, last-In,
  last_cases, first_cases,
}
use uvent.Linked.Refine.{IsList, next_keeps, prev_keeps, unequal_marks}

-- The stores of `remove_locked` to the neighbours and to the waiter, when these are known.
abbrev spliced : ℕ → ℕ → ℕ → (ℕ → Waiter) → ℕ → Waiter
spliced w p n m = update (set_prev n p (set_next p n m)) w unlinked

spliced-IsChain :
    (m : ℕ → Waiter) (w : ℕ) (xs ys : List ℕ)
    → IsDistinct (xs ++ w ∷ ys)
    → IsChain m 0 xs w
    → IsChain m w ys 0
    → IsChain (spliced w (last 0 xs) (first ys 0) m) 0 (xs ++ ys) 0
spliced-IsChain m w xs ys d c e =
    let p = last 0 xs in
    let n = first ys 0 in
    let right = IsDistinct-right xs (w ∷ ys) d in
    let left = IsDistinct-left xs (w ∷ ys) d in
    let m1 = set_next p n m in
    let m2 = set_prev n p m1 in
    let off_left : (x : ℕ) → In x ys → x ≢ p = λ x h z. elim (last_cases xs) [
      | inl q ↦ distinct_nonzero ys x right.2 h (z ∙ q)
      | inr i ↦ distinct_apart xs (w ∷ ys) p d i (inr (subst (λ a. In a ys) z h))
    ] in
    let off_right : (x : ℕ) → In x xs → x ≢ n = λ x h z. elim (first_cases ys) [
      | inl q ↦ distinct_nonzero xs x left h (z ∙ q)
      | inr i ↦ distinct_apart xs (w ∷ ys) n d (subst (λ a. In a xs) z h) (inr i)
    ] in
    let left1 : IsChain m1 0 xs n = IsChain-set_next m 0 xs w n left c in
    let left2 : IsChain m2 0 xs n =
      IsChain-elsewhere m1 m2 0 xs n (λ x h. set_prev_ne n p m1 x (off_right x h)) left1 in
    let right1 : IsChain m1 w ys 0 =
      IsChain-elsewhere m m1 w ys 0 (λ x h. set_next_ne p n m x (off_left x h)) e in
    let right2 : IsChain m2 p ys 0 = IsChain-set_prev m1 w ys 0 p right.2 right1 in
    IsChain-append (spliced w p n m) 0 xs ys 0
      (IsChain-elsewhere m2 (spliced w p n m) 0 xs n
        (λ x h.
          update_ne m2 unlinked
            (λ z. distinct_apart xs (w ∷ ys) w d (subst (λ a. In a xs) z h) (inl refl)))
        left2)
      (IsChain-elsewhere m2 (spliced w p n m) p ys 0
        (λ x h. update_ne m2 unlinked (λ z. right.1 (subst (λ a. In a ys) z h))) right2)

pub remove-IsList_absent :
    (w : ℕ) (l : WaitList) (xs : List ℕ)
    → IsList l xs
    → (In w xs → ⊥)
    → remove_locked w l ≡ (false, l)
unfolding remove_locked
remove-IsList_absent w l xs v out = elim (Bool-cases (l.waiters w).in_list) [
  | inl z ↦ absurd (out (v.others w z))
  | inr z ↦ rw (z) refl
]

others_kept : (a w : ℕ) (xs ys : List ℕ) → In a (xs ++ w ∷ ys) → a ≢ w → In a (xs ++ ys)
others_kept a w xs ys h d = elim (In-append a xs (w ∷ ys) h) [
  | inl i ↦ In-append_left a xs ys i
  | inr (inl e) ↦ absurd (d e)
  | inr (inr i) ↦ In-append_right a xs ys i
]

not_null : (x : ℕ) → x ≢ 0 → (x == 0) ≡ false
not_null x d = elim (Bool-cases (x == 0)) [ inl z ↦ absurd (d ((==_iff x 0).0 z)) | inr z ↦ z ]

head_of :
    (xs ys : List ℕ) (w p n h : ℕ)
    → IsDistinct (xs ++ w ∷ ys)
    → h ≡ first (xs ++ w ∷ ys) 0
    → p ≡ last 0 xs
    → n ≡ first ys 0
    → (if p == 0 then n else h) ≡ first (xs ++ ys) 0
head_of [] ys w p n h d g e f = rw (e) f
head_of (x ∷ zs) ys w p n h d g e f =
    let some_p : (p == 0) ≡ false = not_null p (λ z.
      distinct_nonzero (x ∷ zs) (last x zs) (IsDistinct-left (x ∷ zs) (w ∷ ys) d) (last-In x zs)
        (sym e ∙ z)) in
    rw (some_p) g

tail_of :
    (xs ys : List ℕ) (w p n t : ℕ)
    → IsDistinct (xs ++ w ∷ ys)
    → t ≡ last 0 (xs ++ w ∷ ys)
    → p ≡ last 0 xs
    → n ≡ first ys 0
    → (if n == 0 then p else t) ≡ last 0 (xs ++ ys)
tail_of xs [] w p n t d g e f = rw (f) (e ∙ sym (last-append 0 xs []))
tail_of xs (y ∷ zs) w p n t d g e f =
    let some_n : (n == 0) ≡ false =
      not_null n (λ z. (IsDistinct-right xs (w ∷ y ∷ zs) d).2.0 (sym f ∙ z)) in
    rw (some_n) (g ∙ last-append 0 xs (w ∷ y ∷ zs) ∙ sym (last-append 0 xs (y ∷ zs)))

pub remove-IsList :
    (w : ℕ) (l : WaitList) (xs ys : List ℕ)
    → IsList l (xs ++ w ∷ ys)
    → ((remove_locked w l).0 ≡ true) × IsList (remove_locked w l).1 (xs ++ ys)
unfolding remove_locked
remove-IsList w l xs ys v =
    let parts = IsChain-split l.waiters 0 xs (w ∷ ys) 0 v.chain in
    let it = l.waiters w in
    let right = IsDistinct-right xs (w ∷ ys) v.distinct in
    rw (parts.1.2) (
      refl,
      record {
        head_is = head_of xs ys w it.prev it.next l.head v.distinct v.head_is parts.1.0 parts.1.1;
        tail_is = tail_of xs ys w it.prev it.next l.tail v.distinct v.tail_is parts.1.0 parts.1.1;
        count_is = omega (arith, v.count_is, length-append xs (w ∷ ys), length-append xs ys);
        chain =
            subst (λ p. IsChain (spliced w p it.next l.waiters) 0 (xs ++ ys) 0) (sym parts.1.0)
              (subst (λ n. IsChain (spliced w (last 0 xs) n l.waiters) 0 (xs ++ ys) 0)
                (sym parts.1.1) (spliced-IsChain l.waiters w xs ys v.distinct parts.0 parts.1.3));
        distinct =
            IsDistinct-append xs ys (IsDistinct-left xs (w ∷ ys) v.distinct) right.2
              (λ a h i. distinct_apart xs (w ∷ ys) a v.distinct h (inr i));
        others = λ a.
            update_cases (λ b. b.in_list ≡ true → In a (xs ++ ys))
              (set_prev it.next it.prev (set_next it.prev it.next l.waiters)) w unlinked a
              (λ z h. absurd (unequal_marks h))
              (λ z h.
                others_kept a w xs ys
                  (v.others a (
                    sym (next_keeps it.prev it.next l.waiters a)
                    ∙ sym (prev_keeps it.next it.prev (set_next it.prev it.next l.waiters) a)
                    ∙ h))
                  z);
      },
    )
