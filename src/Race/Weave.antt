-- ===== src/Race/Weave.antt =====
-- HappyEyeballs.cpp: what `weave_tail` keeps, and how long the list of addresses may grow.
use uvent.Common.{
  ℕ, ◌≤◌, max, ◌≡◌, refl, ap, ◌∙◌, Bool, true, false, inl, inr, Option, none, some, List, [], ◌∷◌,
  ◌++◌, ltb, ltb→lt, Bool-cases, ◌==◌, arith, length, length-append, length-take, take, drop,
}
use uvent.Race.{HeState, push_below, weave, cap_of, weave_tail}

module _ {A : Type 0} where
  -- The addresses `xs` begin the list `ys`.
  abbrev pub Begins : List A → List A → Type 0
  Begins xs ys = (zs : List A) × (ys ≡ xs ++ zs)

  append_assoc : (xs ys zs : List A) → (xs ++ ys) ++ zs ≡ xs ++ (ys ++ zs)
  append_assoc [] ys zs = refl
  append_assoc (x ∷ xs) ys zs = ap (λ l. x ∷ l) (append_assoc xs ys zs)

  append_nil : (xs : List A) → xs ≡ xs ++ []
  append_nil [] = refl
  append_nil (x ∷ xs) = ap (λ l. x ∷ l) (append_nil xs)

  Begins-trans : (xs ys zs : List A) → Begins xs ys → Begins ys zs → Begins xs zs
  Begins-trans xs ys zs (us, p) (vs, q) =
      (us ++ vs, q ∙ ap (λ l. l ++ vs) p ∙ append_assoc xs us vs)

  Begins-fits : (xs ys : List A) → Begins xs ys → length xs ≤ length ys
  Begins-fits xs ys (zs, e) = omega (arith, ap length e, length-append xs zs)

  push_below-Begins :
      (limit : Option ℕ) (addrs : List A) (a : A) → Begins addrs (push_below limit addrs a)
  unfolding push_below
  push_below-Begins none addrs a = (a ∷ [], refl)
  push_below-Begins (some limit) addrs a = elim (Bool-cases (ltb (length addrs) limit)) [
    | inl t ↦ rw (t) (a ∷ [], refl)
    | inr f ↦ rw (f) ([], append_nil addrs)
  ]

  weave-Begins :
      (limit : Option ℕ) (addrs first second : List A)
      → Begins addrs (weave limit addrs first second)
  unfolding weave
  weave-Begins limit addrs [] [] = ([], append_nil addrs)
  weave-Begins limit addrs (a ∷ first) [] =
      Begins-trans addrs _ _ (push_below-Begins limit addrs a)
        (weave-Begins limit (push_below limit addrs a) first [])
  weave-Begins limit addrs [] (b ∷ second) =
      Begins-trans addrs _ _ (push_below-Begins limit addrs b)
        (weave-Begins limit (push_below limit addrs b) [] second)
  weave-Begins limit addrs (a ∷ first) (b ∷ second) =
      Begins-trans addrs _ _ (push_below-Begins limit addrs a) (
        Begins-trans _ _ _ (push_below-Begins limit _ b)
          (weave-Begins limit (push_below limit (push_below limit addrs a) b) first second))

  -- With a limit the list stays within it, or as long as it was.
  push_below_fits :
      (limit : ℕ) (addrs : List A) (a : A)
      → length addrs ≤ limit
      → length (push_below (some limit) addrs a) ≤ limit
  unfolding push_below
  push_below_fits limit addrs a h = elim (Bool-cases (ltb (length addrs) limit)) [
    | inl t ↦ rw (t) (omega (arith, length-append addrs (a ∷ []), ltb→lt (length addrs) limit t))
    | inr f ↦ rw (f) h
  ]

  weave_fits :
      (limit : ℕ) (addrs first second : List A)
      → length addrs ≤ limit
      → length (weave (some limit) addrs first second) ≤ limit
  unfolding weave
  weave_fits limit addrs [] [] h = h
  weave_fits limit addrs (a ∷ first) [] h =
      weave_fits limit (push_below (some limit) addrs a) first [] (push_below_fits limit addrs a h)
  weave_fits limit addrs [] (b ∷ second) h =
      weave_fits limit (push_below (some limit) addrs b) [] second (push_below_fits limit addrs b h)
  weave_fits limit addrs (a ∷ first) (b ∷ second) h =
      weave_fits limit (push_below (some limit) (push_below (some limit) addrs a) b) first second (
        push_below_fits limit (push_below (some limit) addrs a) b (push_below_fits limit addrs a h))

-- The limit that `weave_tail` works with.
cap_of-some :
    {A S E : Type 0} (st : HeState A S E)
    → 1 ≤ st.max_attempts
    → cap_of st ≡ some (max st.max_attempts st.next_idx)
unfolding cap_of
cap_of-some st h = let limited : (st.max_attempts == 0) ≡ false = ground arith in rw (limited) refl

module _ {A S E : Type 0} where
  -- The launched addresses stay covered.
  pub weave_tail-Covers :
      (st : HeState A S E) (found : List A) (found_first : Bool)
      → st.next_idx ≤ length st.addrs
      → st.next_idx ≤ length (weave_tail st found found_first).addrs
  unfolding weave_tail
  weave_tail-Covers st found true h =
      let launched = take st.next_idx st.addrs in
      let tail = drop st.next_idx st.addrs in
      omega (
        arith,
        length-take st.next_idx st.addrs,
        Begins-fits launched _ (weave-Begins (cap_of st) launched found tail),
      )
  weave_tail-Covers st found false h =
      let launched = take st.next_idx st.addrs in
      let tail = drop st.next_idx st.addrs in
      omega (
        arith,
        length-take st.next_idx st.addrs,
        Begins-fits launched _ (weave-Begins (cap_of st) launched tail found),
      )

  -- When the attempts are limited, weaving found addresses in leaves the addresses already launched at
  -- the front in their order, and the list stays within the limit or the number launched.
  pub weave_tail-Begins :
      (st : HeState A S E) (found : List A) (found_first : Bool)
      → 1 ≤ st.max_attempts
      → Begins (take st.next_idx st.addrs) (weave_tail st found found_first).addrs
        × (length (weave_tail st found found_first).addrs ≤ max st.max_attempts st.next_idx)
  unfolding weave_tail
  weave_tail-Begins st found true h =
      let launched = take st.next_idx st.addrs in
      let tail = drop st.next_idx st.addrs in
      let few : length launched ≤ max st.max_attempts st.next_idx =
        omega (arith, length-take st.next_idx st.addrs) in
      rw (cap_of-some st h) (
        weave-Begins (some (max st.max_attempts st.next_idx)) launched found tail,
        weave_fits (max st.max_attempts st.next_idx) launched found tail few,
      )
  weave_tail-Begins st found false h =
      let launched = take st.next_idx st.addrs in
      let tail = drop st.next_idx st.addrs in
      let few : length launched ≤ max st.max_attempts st.next_idx =
        omega (arith, length-take st.next_idx st.addrs) in
      rw (cap_of-some st h) (
        weave-Begins (some (max st.max_attempts st.next_idx)) launched tail found,
        weave_fits (max st.max_attempts st.next_idx) launched tail found few,
      )
