-- ===== src/Linked/Steps.antt =====
-- The list of waiters implements a list of addresses.
use uvent.Common.{
  ℕ, ◌≡◌, ◌≢◌, inl, inr, refl, sym, ap, subst, ◌∙◌, true, false, ◌==◌, ==_iff, Bool-cases,
  if◌then◌else◌, List, [], ◌∷◌, ◌++◌, In,
}
use uvent.Linked.{WaitList, push_locked, pop_front_locked, remove_locked}
use uvent.Linked.Refine.{IsList, push-IsList, pop-IsList, pop-IsList_empty}
use uvent.Linked.Remove.{remove-IsList, remove-IsList_absent}

pub data ListOp : Type 0 where
  push : ℕ → ListOp
  pop_front : ListOp
  remove : ℕ → ListOp

-- The result is the address popped, or 1 or 0 for success or failure.
abbrev pub in_memory : ListOp → WaitList → ℕ × WaitList
in_memory (push w) l = (1, push_locked w l)
in_memory pop_front l = pop_front_locked l
in_memory (remove w) l = let r = remove_locked w l in (if r.0 then 1 else 0, r.1)

abbrev pub erase : ℕ → List ℕ → List ℕ
erase w [] = []
erase w (x ∷ xs) = if x == w then xs else x ∷ erase w xs

abbrev pub found : ℕ → List ℕ → ℕ
found w [] = 0
found w (x ∷ xs) = if x == w then 1 else found w xs

-- The same on a list of addresses.
abbrev pub on_list : ListOp → List ℕ → ℕ × List ℕ
on_list (push w) xs = (1, xs ++ w ∷ [])
on_list pop_front [] = (0, [])
on_list pop_front (x ∷ xs) = (x, xs)
on_list (remove w) xs = (found w xs, erase w xs)

-- A waiter is pushed when it is not in the list.
abbrev pub IsAllowed : ListOp → List ℕ → Type 0
IsAllowed (push w) xs = (w ≢ 0) × (In w xs → ⊥)
IsAllowed pop_front xs = Unit
IsAllowed (remove w) xs = Unit

-- Where an address stands in a list.
data Standing (w : ℕ) (xs : List ℕ) : Type 0 where
  absent : (In w xs → ⊥) → erase w xs ≡ xs → found w xs ≡ 0 → Standing w xs
  between :
      (ys zs : List ℕ) → xs ≡ ys ++ w ∷ zs → erase w xs ≡ ys ++ zs → found w xs ≡ 1 → Standing w xs

standing : (w : ℕ) (xs : List ℕ) → Standing w xs
standing w [] = absent (λ h. elim h [ ]) refl refl
standing w (x ∷ xs) = elim (Bool-cases (x == w)) [
  | inl z ↦ between [] xs (ap (λ y. y ∷ xs) ((==_iff x w).0 z)) (rw (z) refl) (rw (z) refl)
  | inr z ↦ elim (standing w xs) [
    | absent out e f ↦
        absent (λ h. elim h [ inl q ↦ unequal (sym z ∙ (==_iff x w).1 (sym q)) | inr i ↦ out i ])
          (rw (z) (ap (λ l. x ∷ l) e)) (rw (z) f)
    | between ys zs e f g ↦
        between (x ∷ ys) zs (ap (λ l. x ∷ l) e) (rw (z) (ap (λ l. x ∷ l) f)) (rw (z) g)
  ]
]
  where
    unequal : false ≡ true → ⊥
    unequal e = cc

-- The list of waiters in memory holds waiters in order, each step gives what it gives on the list of their
-- addresses, and leaves that list: a push puts a waiter that is not there at the end, a pop takes the first
-- one or gives null, and a removal takes a waiter out wherever it stands or fails and changes nothing.
pub in_memory-IsList :
    (op : ListOp) (l : WaitList) (xs : List ℕ)
    → IsList l xs
    → IsAllowed op xs
    → ((in_memory op l).0 ≡ (on_list op xs).0) × IsList (in_memory op l).1 (on_list op xs).1
in_memory-IsList (push w) l xs v a = (refl, push-IsList w l xs v a.0 a.1)
in_memory-IsList pop_front l [] v a =
    let same : pop_front_locked l ≡ (0, l) = pop-IsList_empty l v in
    (ap (λ r. r.0) same, subst (λ r. IsList r.1 []) (sym same) v)
in_memory-IsList pop_front l (x ∷ xs) v a = pop-IsList l x xs v
in_memory-IsList (remove w) l xs v a = elim (standing w xs) [
  | absent out e f ↦
      let same : remove_locked w l ≡ (false, l) = remove-IsList_absent w l xs v out in
      (
        ap (λ r. if r.0 then 1 else 0) same ∙ sym f,
        subst (IsList (remove_locked w l).1) (sym e) (subst (λ r. IsList r.1 xs) (sym same) v),
      )
  | between ys zs e f g ↦
      let done = remove-IsList w l ys zs (subst (IsList l) e v) in
      (
        ap (λ b. if b then 1 else 0) done.0 ∙ sym g,
        subst (IsList (remove_locked w l).1) (sym f) done.1,
      )
]
