-- ===== src/Wheel/Count.antt =====
-- `swap_pop_at` takes out the one pointer at its place: how often each pointer stands in a bucket.
use uvent.Common.{
  ℕ, zero, suc, ◌+◌, ◌-◌, ◌<◌, ◌≡◌, ◌≢◌, refl, sym, ap, ◌∙◌, inl, inr, List, [], ◌∷◌, arith, length,
  get_or, get_elem?, set, take, ◌==◌, ==_iff, ==-false→ne, Bool-cases, Option, some, if◌then◌else◌,
}
use uvent.Wheel.{swap_pop}

abbrev pub one : ℕ → ℕ → ℕ
one q x = if x == q then 1 else 0

-- How often `q` stands in the list.
abbrev pub count : ℕ → List ℕ → ℕ
count q [] = 0
count q (x ∷ xs) = one q x + count q xs

some_inj : {x y : ℕ} → some x ≡ some y → x ≡ y
some_inj e = cc

no_element : {x : ℕ} → Option.none ≡ some x → ⊥
no_element e = cc

pub get_elem?-get_or : (xs : List ℕ) (i x : ℕ) → get_elem? xs i ≡ some x → get_or xs i 0 ≡ x
get_elem?-get_or [] i x e = absurd (no_element e)
get_elem?-get_or (y ∷ ys) zero x e = some_inj e
get_elem?-get_or (y ∷ ys) (suc i) x e = get_elem?-get_or ys i x e

pub get_elem?-length : (xs : List ℕ) (i x : ℕ) → get_elem? xs i ≡ some x → i < length xs
get_elem?-length [] i x e = absurd (no_element e)
get_elem?-length (y ∷ ys) zero x e = omega arith
get_elem?-length (y ∷ ys) (suc i) x e = omega (arith, get_elem?-length ys i x e)

count-set :
    (q : ℕ) (xs : List ℕ) (i x z : ℕ)
    → get_elem? xs i ≡ some x
    → count q (set xs i z) + one q x ≡ count q xs + one q z
count-set q [] i x z e = absurd (no_element e)
count-set q (y ∷ ys) zero x z e =
    let same : one q y ≡ one q x = ap (one q) (some_inj e) in omega (arith, same)
count-set q (y ∷ ys) (suc i) x z e = omega (arith, count-set q ys i x z e)

-- The last pointer and those before it are all.
count-take :
    (q b : ℕ) (bs : List ℕ)
    → count q (take (length bs) (b ∷ bs)) + one q (get_or (b ∷ bs) (length bs) 0) ≡ count q (b ∷ bs)
count-take q b [] = omega arith
count-take q b (c ∷ cs) = omega (arith, count-take q c cs)

get_or-set_other : (xs : List ℕ) (i n z : ℕ) → i ≢ n → get_or (set xs i z) n 0 ≡ get_or xs n 0
get_or-set_other [] i n z d = refl
get_or-set_other (x ∷ xs) zero zero z d = absurd (d refl)
get_or-set_other (x ∷ xs) zero (suc n) z d = refl
get_or-set_other (x ∷ xs) (suc i) zero z d = refl
get_or-set_other (x ∷ xs) (suc i) (suc n) z d = get_or-set_other xs i n z (λ e. d (ap suc e))

-- After a write at another place, the pointers before the last one.
count-take-set :
    (q b : ℕ) (bs : List ℕ) (i z : ℕ)
    → i ≢ length bs
    → count q (take (length bs) (set (b ∷ bs) i z)) + one q (get_or (b ∷ bs) (length bs) 0)
      ≡ count q (set (b ∷ bs) i z)
count-take-set q b [] zero z d = absurd (d refl)
count-take-set q b [] (suc i) z d = omega arith
count-take-set q b (c ∷ cs) zero z d = omega (arith, count-take q c cs)
count-take-set q b (c ∷ cs) (suc i) z d =
    omega (arith, count-take-set q c cs i z (λ e. d (ap suc e)))

pub count-swap_pop :
    (q at x : ℕ) (xs : List ℕ)
    → get_elem? xs at ≡ some x
    → count q (swap_pop at xs) + one q x ≡ count q xs
unfolding swap_pop
count-swap_pop q at x [] e = absurd (no_element e)
count-swap_pop q at x (b ∷ bs) e =
    let n : length (b ∷ bs) - 1 ≡ length bs = omega arith in
    let last = get_or (b ∷ bs) (length bs) 0 in
    elim (Bool-cases (at == length bs)) [
      | inl z ↦
          let is_last : one q x ≡ one q last = ap (one q) (
            sym (get_elem?-get_or (b ∷ bs) at x e)
            ∙ ap (λ i. get_or (b ∷ bs) i 0) ((==_iff at (length bs)).0 z)) in
          rw (n, z) (omega (arith, is_last, count-take q b bs))
      | inr z ↦
          rw (n, z)
            (omega (
              arith,
              count-take-set q b bs at last (==-false→ne at (length bs) z),
              count-set q (b ∷ bs) at x last e,
            ))
    ]
