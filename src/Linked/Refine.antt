-- ===== src/Linked/Refine.antt =====
-- The list of waiters in memory is a list: what each step does to it.
use uvent.Common.{
  ℕ, ◌≡◌, ◌≢◌, inl, inr, refl, sym, ap, subst, ◌∙◌, arith, true, false, ◌==◌, ==_iff, Bool-cases,
  if◌then◌else◌, List, [], ◌∷◌, ◌++◌, In, In-append_left, In-append_right, length, length-append,
}
use uvent.Common.Memory.{update, update_self, update_ne, update_cases}
use uvent.Linked.{
  Waiter, WaitList, u32, set_next, set_prev, unlinked, push_locked, pop_front_locked,
}
use uvent.Linked.Chain.{
  first, last, IsChain, IsDistinct, IsChain-elsewhere, IsChain-append, IsChain-set_next,
  IsChain-set_prev, last-append,
}
use uvent.Linked.Distinct.{distinct_nonzero, IsDistinct-append, last-In}

-- The waiters of the list are those of `xs`, in this order, and no others are marked.
pub record IsList (l : WaitList) (xs : List ℕ) : Type 0 where
  pub head_is : l.head ≡ first xs 0
  pub tail_is : l.tail ≡ last 0 xs
  pub count_is : l.count ≡ u32 (length xs)
  pub chain : IsChain l.waiters 0 xs 0
  pub distinct : IsDistinct xs
  pub others : (a : ℕ) → (l.waiters a).in_list ≡ true → In a xs

pub next_keeps : (a n : ℕ) (m : ℕ → Waiter) (x : ℕ) → (set_next a n m x).in_list ≡ (m x).in_list
next_keeps a n m x = elim (Bool-cases (a == 0)) [
  | inl z ↦ rw (z) refl
  | inr z ↦ rw (z) (
      update_cases (λ b. b.in_list ≡ (m x).in_list) m a (record (m a) { next = n }) x
        (λ e. ap (λ y. (m y).in_list) (sym e)) (λ e. refl))
]

pub prev_keeps : (a p : ℕ) (m : ℕ → Waiter) (x : ℕ) → (set_prev a p m x).in_list ≡ (m x).in_list
prev_keeps a p m x = elim (Bool-cases (a == 0)) [
  | inl z ↦ rw (z) refl
  | inr z ↦ rw (z) (
      update_cases (λ b. b.in_list ≡ (m x).in_list) m a (record (m a) { prev = p }) x
        (λ e. ap (λ y. (m y).in_list) (sym e)) (λ e. refl))
]

one : (a w : ℕ) → In a (w ∷ []) → a ≡ w
one a w (inl e) = e
one a w (inr h) = elim h [ ]

pub unequal_marks : false ≡ true → ⊥
unequal_marks e = cc

pub push-IsList :
    (w : ℕ) (l : WaitList) (xs : List ℕ)
    → IsList l xs
    → w ≢ 0
    → (In w xs → ⊥)
    → IsList (push_locked w l) (xs ++ w ∷ [])
unfolding push_locked
push-IsList w l xs v nonzero new =
    let m = set_next l.tail w l.waiters in
    let n = update m w (record { prev = l.tail; next = 0; in_list = true }) in
    let here : n w ≡ record { prev = l.tail; next = 0; in_list = true } =
      update_self m w (record { prev = l.tail; next = 0; in_list = true }) in
    let before : IsChain m 0 xs w =
      subst (λ t. IsChain (set_next t w l.waiters) 0 xs w) (sym v.tail_is)
        (IsChain-set_next l.waiters 0 xs 0 w v.distinct v.chain) in
    record {
      head_is = new_head xs v.head_is v.tail_is v.distinct;
      tail_is = sym (last-append 0 xs (w ∷ []));
      count_is = omega (arith, v.count_is, length-append xs (w ∷ []));
      chain =
          IsChain-append n 0 xs (w ∷ []) 0
            (IsChain-elsewhere m n 0 xs w
              (λ x h.
                update_ne m (record { prev = l.tail; next = 0; in_list = true })
                  (λ z. new (subst (λ a. In a xs) z h)))
              before)
            (
              ap (λ a. a.prev) here ∙ v.tail_is,
              ap (λ a. a.next) here,
              ap (λ a. a.in_list) here,
              tt,
            );
      distinct =
          IsDistinct-append xs (w ∷ []) v.distinct (nonzero, λ h. elim h [ ], tt)
            (λ a h i. new (subst (λ b. In b xs) (one a w i) h));
      others = λ a.
          update_cases (λ b. b.in_list ≡ true → In a (xs ++ w ∷ [])) m w
            (record { prev = l.tail; next = 0; in_list = true }) a
            (λ z h. In-append_right a xs (w ∷ []) (inl z))
            (λ z h.
              In-append_left a xs (w ∷ [])
                (v.others a (sym (next_keeps l.tail w l.waiters a) ∙ h)));
    }
  where
    new_head :
        (xs : List ℕ)
        → l.head ≡ first xs 0
        → l.tail ≡ last 0 xs
        → IsDistinct xs
        → (if l.tail == 0 then w else l.head) ≡ first (xs ++ w ∷ []) 0
    new_head [] h t d = rw (t) refl
    new_head (x ∷ xs) h t d = elim (Bool-cases (l.tail == 0)) [
      | inl z ↦
          absurd
            (distinct_nonzero (x ∷ xs) (last x xs) d (last-In x xs) (sym t ∙ (==_iff l.tail 0).0 z))
      | inr z ↦ rw (z) h
    ]

pub pop-IsList_empty : (l : WaitList) → IsList l [] → pop_front_locked l ≡ (0, l)
unfolding pop_front_locked
pop-IsList_empty l v = rw (v.head_is) refl

pub pop-IsList :
    (l : WaitList) (w : ℕ) (xs : List ℕ)
    → IsList l (w ∷ xs)
    → ((pop_front_locked l).0 ≡ w) × IsList (pop_front_locked l).1 xs
unfolding pop_front_locked
pop-IsList l w xs v =
    let next_is : (l.waiters l.head).next ≡ first xs 0 =
      ap (λ a. (l.waiters a).next) v.head_is ∙ v.chain.1 in
    let some_head : (l.head == 0) ≡ false = elim (Bool-cases (l.head == 0)) [
      | inl z ↦ absurd (v.distinct.0 (sym v.head_is ∙ (==_iff l.head 0).0 z))
      | inr z ↦ z
    ] in
    let m = set_prev (first xs 0) 0 l.waiters in
    let n = update m w unlinked in
    let after : IsChain m 0 xs 0 = IsChain-set_prev l.waiters w xs 0 0 v.distinct.2 v.chain.3 in
    rw (some_head) (
      v.head_is,
      record {
        head_is = next_is;
        tail_is =
            ap (λ x. if x == 0 then 0 else l.tail) next_is ∙ new_tail xs v.tail_is v.distinct.2;
        count_is = omega (arith, v.count_is);
        chain =
            subst
              (λ h. IsChain (update (set_prev (l.waiters h).next 0 l.waiters) h unlinked) 0 xs 0)
              (sym v.head_is)
              (subst (λ x. IsChain (update (set_prev x 0 l.waiters) w unlinked) 0 xs 0)
                (sym v.chain.1)
                (IsChain-elsewhere m n 0 xs 0
                  (λ x h. update_ne m unlinked (λ z. v.distinct.1 (subst (λ a. In a xs) z h)))
                  after));
        distinct = v.distinct.2;
        others = λ a.
            update_cases (λ b. b.in_list ≡ true → In a xs)
              (set_prev (l.waiters l.head).next 0 l.waiters) l.head unlinked a
              (λ z h. absurd (unequal_marks h))
              (λ z h.
                elim (v.others a (sym (prev_keeps (l.waiters l.head).next 0 l.waiters a) ∙ h)) [
                  | inl e ↦ absurd (z (e ∙ sym v.head_is))
                  | inr i ↦ i
                ]);
      },
    )
  where
    new_tail :
        (xs : List ℕ)
        → l.tail ≡ last w xs
        → IsDistinct xs
        → (if first xs 0 == 0 then 0 else l.tail) ≡ last 0 xs
    new_tail [] t d = refl
    new_tail (x ∷ ys) t d = elim (Bool-cases (x == 0)) [
      | inl z ↦ absurd (d.0 ((==_iff x 0).0 z))
      | inr z ↦ rw (z) t
    ]
