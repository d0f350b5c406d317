-- ===== src/Linked/Chain.antt =====
-- The list of waiters: chains of waiters in memory.
use uvent.Common.{
  ℕ, ◌≡◌, ◌≢◌, ◌⊎◌, inl, inr, refl, sym, ap, subst, ◌∙◌, true, ◌==◌, ==_iff, Bool-cases, List, [],
  ◌∷◌, ◌++◌, In,
}
use uvent.Common.Memory.{update_self, update_ne}
use uvent.Linked.{Waiter, set_next, set_prev}

-- The first and the last address of a list, or another.
abbrev pub first : List ℕ → ℕ → ℕ
first [] n = n
first (x ∷ xs) n = x

abbrev pub last : ℕ → List ℕ → ℕ
last p [] = p
last p (x ∷ xs) = last x xs

-- The waiters are linked in this order, after `p` and before `n`.
abbrev pub IsChain : (ℕ → Waiter) → ℕ → List ℕ → ℕ → Type 0
IsChain m p [] n = Unit
IsChain m p (x ∷ xs) n =
    ((m x).prev ≡ p) × ((m x).next ≡ first xs n) × ((m x).in_list ≡ true) × IsChain m x xs n

-- No address is null or comes twice.
abbrev pub IsDistinct : List ℕ → Type 0
IsDistinct [] = Unit
IsDistinct (x ∷ xs) = (x ≢ 0) × (In x xs → ⊥) × IsDistinct xs

-- A chain does not depend on other waiters.
pub IsChain-elsewhere :
    (m o : ℕ → Waiter) (p : ℕ) (xs : List ℕ) (n : ℕ)
    → ((x : ℕ) → In x xs → o x ≡ m x)
    → IsChain m p xs n
    → IsChain o p xs n
IsChain-elsewhere m o p [] n same c = tt
IsChain-elsewhere m o p (x ∷ xs) n same c =
    let here = same x (inl refl) in
    (
      ap (λ a. a.prev) here ∙ c.0,
      ap (λ a. a.next) here ∙ c.1,
      ap (λ a. a.in_list) here ∙ c.2,
      IsChain-elsewhere m o x xs n (λ y h. same y (inr h)) c.3,
    )

pub first-append : (xs ys : List ℕ) (n : ℕ) → first (xs ++ ys) n ≡ first xs (first ys n)
first-append [] ys n = refl
first-append (x ∷ xs) ys n = refl

pub last-append : (p : ℕ) (xs ys : List ℕ) → last p (xs ++ ys) ≡ last (last p xs) ys
last-append p [] ys = refl
last-append p (x ∷ xs) ys = last-append x xs ys

pub IsChain-split :
    (m : ℕ → Waiter) (p : ℕ) (xs ys : List ℕ) (n : ℕ)
    → IsChain m p (xs ++ ys) n
    → IsChain m p xs (first ys n) × IsChain m (last p xs) ys n
IsChain-split m p [] ys n c = (tt, c)
IsChain-split m p (x ∷ xs) ys n c =
    let rest = IsChain-split m x xs ys n c.3 in
    ((c.0, c.1 ∙ first-append xs ys n, c.2, rest.0), rest.1)

pub IsChain-append :
    (m : ℕ → Waiter) (p : ℕ) (xs ys : List ℕ) (n : ℕ)
    → IsChain m p xs (first ys n)
    → IsChain m (last p xs) ys n
    → IsChain m p (xs ++ ys) n
IsChain-append m p [] ys n c d = d
IsChain-append m p (x ∷ xs) ys n c d =
    (c.0, c.1 ∙ sym (first-append xs ys n), c.2, IsChain-append m x xs ys n c.3 d)

-- A store through a pointer leaves the other waiters.
pub set_next_ne : (a n : ℕ) (m : ℕ → Waiter) (x : ℕ) → x ≢ a → set_next a n m x ≡ m x
set_next_ne a n m x d = elim (Bool-cases (a == 0)) [
  | inl z ↦ rw (z) refl
  | inr z ↦ rw (z) (update_ne m (record (m a) { next = n }) d)
]

pub set_prev_ne : (a p : ℕ) (m : ℕ → Waiter) (x : ℕ) → x ≢ a → set_prev a p m x ≡ m x
set_prev_ne a p m x d = elim (Bool-cases (a == 0)) [
  | inl z ↦ rw (z) refl
  | inr z ↦ rw (z) (update_ne m (record (m a) { prev = p }) d)
]

pub set_next_self :
    (a n : ℕ) (m : ℕ → Waiter) → a ≢ 0 → set_next a n m a ≡ record (m a) { next = n }
set_next_self a n m d = elim (Bool-cases (a == 0)) [
  | inl z ↦ absurd (d ((==_iff a 0).0 z))
  | inr z ↦ rw (z) (update_self m a (record (m a) { next = n }))
]

pub set_prev_self :
    (a p : ℕ) (m : ℕ → Waiter) → a ≢ 0 → set_prev a p m a ≡ record (m a) { prev = p }
set_prev_self a p m d = elim (Bool-cases (a == 0)) [
  | inl z ↦ absurd (d ((==_iff a 0).0 z))
  | inr z ↦ rw (z) (update_self m a (record (m a) { prev = p }))
]

last-In : (p : ℕ) (xs : List ℕ) → (last p xs ≡ p) ⊎ In (last p xs) xs
last-In p [] = inl refl
last-In p (x ∷ xs) = elim (last-In x xs) [ inl e ↦ inr (inl e) | inr h ↦ inr (inr h) ]

-- The last waiter of a chain gets another next one.
pub IsChain-set_next :
    (m : ℕ → Waiter) (p : ℕ) (xs : List ℕ) (n k : ℕ)
    → IsDistinct xs
    → IsChain m p xs n
    → IsChain (set_next (last 0 xs) k m) p xs k
IsChain-set_next m p [] n k d c = tt
IsChain-set_next m p (x ∷ []) n k d c =
    let here = set_next_self x k m d.0 in
    (ap (λ a. a.prev) here ∙ c.0, ap (λ a. a.next) here, ap (λ a. a.in_list) here ∙ c.2, tt)
IsChain-set_next m p (x ∷ y ∷ ys) n k d c =
    let differ : x ≢ last y ys = λ z. elim (last-In y ys) [
      | inl e ↦ d.1 (inl (z ∙ e))
      | inr h ↦ d.1 (inr (subst (λ a. In a ys) (sym z) h))
    ] in
    let here = set_next_ne (last y ys) k m x differ in
    (
      ap (λ a. a.prev) here ∙ c.0,
      ap (λ a. a.next) here ∙ c.1,
      ap (λ a. a.in_list) here ∙ c.2,
      IsChain-set_next m x (y ∷ ys) n k d.2 c.3,
    )

-- The first waiter of a chain gets another previous one.
pub IsChain-set_prev :
    (m : ℕ → Waiter) (p : ℕ) (xs : List ℕ) (n k : ℕ)
    → IsDistinct xs
    → IsChain m p xs n
    → IsChain (set_prev (first xs 0) k m) k xs n
IsChain-set_prev m p [] n k d c = tt
IsChain-set_prev m p (x ∷ xs) n k d c =
    let here = set_prev_self x k m d.0 in
    (
      ap (λ a. a.prev) here,
      ap (λ a. a.next) here ∙ c.1,
      ap (λ a. a.in_list) here ∙ c.2,
      IsChain-elsewhere m (set_prev x k m) x xs n
          (λ y h. set_prev_ne x k m y (λ z. d.1 (subst (λ a. In a xs) z h))) c.3,
    )
