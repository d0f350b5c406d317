-- ===== src/Linked/Distinct.antt =====
-- The list of waiters: lists of different addresses.
use uvent.Common.{
  ℕ, ◌≡◌, ◌≢◌, ◌⊎◌, inl, inr, refl, sym, subst, ◌∙◌, List, [], ◌∷◌, ◌++◌, In, In-append,
  In-append_left, In-append_right,
}
use uvent.Linked.Chain.{IsDistinct, first, last}

pub distinct_nonzero : (xs : List ℕ) (a : ℕ) → IsDistinct xs → In a xs → a ≢ 0
distinct_nonzero [] a d h = elim h [ ]
distinct_nonzero (x ∷ xs) a d (inl e) = λ z. d.0 (sym e ∙ z)
distinct_nonzero (x ∷ xs) a d (inr h) = distinct_nonzero xs a d.2 h

pub IsDistinct-left : (xs ys : List ℕ) → IsDistinct (xs ++ ys) → IsDistinct xs
IsDistinct-left [] ys d = tt
IsDistinct-left (x ∷ xs) ys d =
    (d.0, λ h. d.1 (In-append_left x xs ys h), IsDistinct-left xs ys d.2)

pub IsDistinct-right : (xs ys : List ℕ) → IsDistinct (xs ++ ys) → IsDistinct ys
IsDistinct-right [] ys d = d
IsDistinct-right (x ∷ xs) ys d = IsDistinct-right xs ys d.2

pub distinct_apart : (xs ys : List ℕ) (a : ℕ) → IsDistinct (xs ++ ys) → In a xs → In a ys → ⊥
distinct_apart [] ys a d h i = elim h [ ]
distinct_apart (x ∷ xs) ys a d (inl e) i = d.1 (In-append_right x xs ys (subst (λ b. In b ys) e i))
distinct_apart (x ∷ xs) ys a d (inr h) i = distinct_apart xs ys a d.2 h i

pub IsDistinct-append :
    (xs ys : List ℕ)
    → IsDistinct xs
    → IsDistinct ys
    → ((a : ℕ) → In a xs → In a ys → ⊥)
    → IsDistinct (xs ++ ys)
IsDistinct-append [] ys d e h = e
IsDistinct-append (x ∷ xs) ys d e h = (
  d.0,
  λ i. elim (In-append x xs ys i) [ inl j ↦ d.1 j | inr j ↦ h x (inl refl) j ],
  IsDistinct-append xs ys d.2 e (λ a j k. h a (inr j) k),
)

pub last-In : (x : ℕ) (xs : List ℕ) → In (last x xs) (x ∷ xs)
last-In x [] = inl refl
last-In x (y ∷ ys) = inr (last-In y ys)

pub last_cases : (xs : List ℕ) → (last 0 xs ≡ 0) ⊎ In (last 0 xs) xs
last_cases [] = inl refl
last_cases (x ∷ xs) = inr (last-In x xs)

pub first_cases : (xs : List ℕ) → (first xs 0 ≡ 0) ⊎ In (first xs 0) xs
first_cases [] = inl refl
first_cases (x ∷ xs) = inr (inl refl)
