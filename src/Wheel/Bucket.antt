-- ===== src/Wheel/Bucket.antt =====
-- `swap_pop_at` on a bucket: it takes out one pointer and keeps the others, in some order.
use uvent.Common.{
  ℕ, suc, ◌-◌, ◌≡◌, refl, sym, subst, ◌↔◌, ◌⊎◌, inl, inr, List, [], ◌∷◌, arith, length, get_or,
  take, In, ◌==◌, false, length-take, In-take, In-set, In-get_or, Bool-cases,
}
use uvent.Wheel.{swap_pop}

-- The last element and those before it are the whole list.
last_split :
    (q b : ℕ) (bs : List ℕ)
    → In q (b ∷ bs) ↔ ((q ≡ get_or (b ∷ bs) (length bs) 0) ⊎ In q (take (length bs) (b ∷ bs)))
last_split q b [] = (λ h. h, λ h. h)
last_split q c (b ∷ bs) =
    let (to, from) = last_split q b bs in
    (
      elim [ inl e ↦ inr (inl e) | inr h ↦ elim (to h) [ inl e ↦ inl e | inr i ↦ inr (inr i) ] ],
      elim [
        | inl e ↦ inr (from (inl e))
        | inr h ↦ elim h [ inl e ↦ inl e | inr i ↦ inr (from (inr i)) ]
      ],
    )

suc_sub_one : (n : ℕ) → suc n - 1 ≡ n
suc_sub_one n = omega arith

pub zero_eq_suc : (n : ℕ) → (0 == suc n) ≡ false
zero_eq_suc n = ground arith

swap_pop_one : (p : ℕ) → swap_pop 0 (p ∷ []) ≡ []
unfolding swap_pop
swap_pop_one p = refl

swap_pop_more :
    (p b : ℕ) (bs : List ℕ)
    → swap_pop 0 (p ∷ b ∷ bs) ≡ get_or (b ∷ bs) (length bs) 0 ∷ take (length bs) (b ∷ bs)
unfolding swap_pop
swap_pop_more p b bs = rw (suc_sub_one (suc (length bs)), zero_eq_suc (length bs))

-- Taking out the first pointer leaves the others.
pub In-swap_pop : (q p : ℕ) (rest : List ℕ) → In q (swap_pop 0 (p ∷ rest)) ↔ In q rest
In-swap_pop q p [] = rw (swap_pop_one p) (λ h. h, λ h. h)
In-swap_pop q p (b ∷ bs) =
    let (to, from) = last_split q b bs in rw (swap_pop_more p b bs) (from, to)

pub length-swap_pop : (p : ℕ) (rest : List ℕ) → length (swap_pop 0 (p ∷ rest)) ≡ length rest
length-swap_pop p [] = rw (swap_pop_one p)
length-swap_pop p (b ∷ bs) =
    rw (swap_pop_more p b bs) (omega (arith, length-take (length bs) (b ∷ bs)))

-- At any place, taking one pointer out brings none in.
pub In-swap_pop_any : (q at : ℕ) (b : List ℕ) → In q (swap_pop at b) → In q b
unfolding swap_pop
In-swap_pop_any q at [] h = elim (Bool-cases (at == (0 - 1))) [
  | inl e ↦ rw e at h
  | inr e ↦ rw e at h
]
In-swap_pop_any q at (x ∷ xs) h =
    let n = length (x ∷ xs) - 1 in
    let last = get_or (x ∷ xs) n 0 in
    elim (Bool-cases (at == n)) [
      | inl e ↦ In-take q n (x ∷ xs) (rw e at h)
      | inr e ↦ elim (In-set q (x ∷ xs) at last (In-take q n _ (rw e at h))) [
        | inl y ↦ subst (λ r. In r (x ∷ xs)) (sym y) (In-get_or (x ∷ xs) n 0 (omega arith))
        | inr y ↦ y
      ]
    ]
