-- ===== src/Wheel/Round.antt =====
-- One round of `processSlot`: the first pointer of the bucket leaves it.
use native.Mathlib.Decide.{dec_le, ℕ_discrete}
use uvent.Common.{
  ℕ, ◌≤◌, ◌<◌, ◌≡◌, refl, ap₂, subst, ◌∙◌, ◌⊎◌, inl, inr, ◌≢◌, true, false, ◌&&◌, Option, none,
  some, List, [], ◌∷◌, ◌++◌, arith, ◌==◌, Bool-cases, In, In-append_left, In-append_right, length,
  le→leb, lt→leb-false,
}
use uvent.Timer.{Timer}
use uvent.Wheel.{
  TimerWheel, set_bucket, slot_for, add_timer_to_wheel, swap_pop, swap_pop_at, moved_timers, fire,
  visit,
}
use uvent.Wheel.Placement.{level_of}
use uvent.Wheel.Bucket.{In-swap_pop, length-swap_pop}
use uvent.Wheel.Progress.{
  expiry, is_active, Told, Told-mono, Notified, SameOwner, Keeps, Keeps-refl, Keeps-trans,
}

-- Where a timer goes that is put in again.
abbrev pub target_level : TimerWheel → ℕ → ℕ
target_level w p = level_of w.levels w.current_time (expiry w p)

abbrev pub target_slot : TimerWheel → ℕ → ℕ
target_slot w p = slot_for w.current_time (expiry w p) (target_level w p)

here : (i l j s : ℕ) → ((i == l) && (j == s)) ≡ true → (i ≡ l) × (j ≡ s)
here i l j s h = ground arith

pub set_bucket_self : (bs : ℕ → ℕ → List ℕ) (l s : ℕ) (b : List ℕ) → set_bucket bs l s b l s ≡ b
set_bucket_self bs l s b = ground arith

-- A bucket is the one written, or as it was.
pub set_bucket_cases :
    (bs : ℕ → ℕ → List ℕ) (l s : ℕ) (b : List ℕ) (i j : ℕ)
    → ((i ≡ l) × (j ≡ s) × (set_bucket bs l s b i j ≡ b)) ⊎ (set_bucket bs l s b i j ≡ bs i j)
set_bucket_cases bs l s b i j = elim (Bool-cases ((i == l) && (j == s))) [
  | inl h ↦ let (a, c) = here i l j s h in inl (a, c, rw h)
  | inr h ↦ inr (rw h)
]

module _ (w : TimerWheel) (l s p : ℕ) (rest : List ℕ) (e : w.buckets l s ≡ p ∷ rest) where
  -- Taking the first pointer out brings no pointer in.
  pub swap_pop_at-back :
      (q i j : ℕ) → In q ((swap_pop_at w l s 0).buckets i j) → In q (w.buckets i j)
  unfolding swap_pop_at
  swap_pop_at-back q i j h =
      elim (set_bucket_cases w.buckets l s (swap_pop 0 (w.buckets l s)) i j) [
        | inl (a, b, c) ↦ rw (a, b, e) (inr ((In-swap_pop q p rest).0 (rw (c, e) at h)))
        | inr c ↦ rw c at h
      ]

  -- Every other pointer stays where it was.
  pub swap_pop_at-stays :
      (q i j : ℕ)
      → In q (w.buckets i j)
      → In q ((swap_pop_at w l s 0).buckets i j) ⊎ ((q ≡ p) × (i ≡ l) × (j ≡ s))
  unfolding swap_pop_at
  swap_pop_at-stays q i j h =
      elim (set_bucket_cases w.buckets l s (swap_pop 0 (w.buckets l s)) i j) [
        | inl (a, b, c) ↦ elim (subst (In q) (ap₂ w.buckets a b ∙ e) h) [
          | inl x ↦ inr (x, a, b)
          | inr x ↦ inl (rw (c, e) ((In-swap_pop q p rest).1 x))
        ]
        | inr c ↦ inl (rw c h)
      ]

  pub length-swap_pop_at : length ((swap_pop_at w l s 0).buckets l s) ≡ length rest
  unfolding swap_pop_at
  length-swap_pop_at =
      rw (set_bucket_self w.buckets l s (swap_pop 0 (w.buckets l s)), e) (length-swap_pop p rest)

-- Only a position in a bucket changes in a timer.
pub swap_pop_at-timer :
    (w : TimerWheel) (l s at q : ℕ)
    → SameOwner (w.timers q) ((swap_pop_at w l s at).timers q)
      × (is_active (swap_pop_at w l s at) q ≡ is_active w q)
unfolding swap_pop_at moved_timers
swap_pop_at-timer w l s at q = ground arith

visit_dead : (w : TimerWheel) (p : ℕ) → is_active w p ≡ false → visit w p ≡ w
unfolding visit
visit_dead w p h = rw h

visit_due :
    (w : TimerWheel) (p : ℕ)
    → is_active w p ≡ true
    → expiry w p ≤ w.current_time
    → visit w p ≡ fire w p
unfolding visit
visit_due w p h late = rw (h, le→leb _ _ late)

pub visit_wait :
    (w : TimerWheel) (p : ℕ)
    → is_active w p ≡ true
    → w.current_time < expiry w p
    → visit w p ≡ add_timer_to_wheel w p (expiry w p)
unfolding visit
visit_wait w p h early = rw (h, lt→leb-false _ _ early)

pub fire-timer :
    (w : TimerWheel) (p q : ℕ)
    → SameOwner (w.timers q) ((fire w p).timers q)
      × (q ≢ p → is_active (fire w p) q ≡ is_active w q)
      × (is_active (fire w p) p ≡ false)
unfolding fire
fire-timer w p q = ground arith

grows {ℓ} :
    {A : Type ℓ} (o : Option ℕ) (f : ℕ → A) (xs : List A) (x : A)
    → In x xs
    → In x (elim o [ some a ↦ xs ++ f a ∷ [] | none ↦ xs ])
grows (some a) f xs x h = In-append_left x xs (f a ∷ []) h
grows none f xs x h = h

grows_later {ℓ} :
    {A : Type ℓ} (o c : Option ℕ) (f : ℕ → A) (xs : List A) (x : A)
    → In x xs
    → In x (elim o [ some a ↦ xs | none ↦ elim c [ some h ↦ xs ++ f h ∷ [] | none ↦ xs ] ])
grows_later (some a) c f xs x h = h
grows_later none c f xs x h = grows c f xs x h

fire-logged : (w : TimerWheel) (p : ℕ) (t : Timer) → Notified w t → Notified (fire w p) t
unfolding fire
fire-logged w p t n =
    Told-mono _ _ _ _ (grows (w.timers p).raw_fn (λ fn. (fn, (w.timers p).raw_arg)) w.fired_raw)
      (grows_later (w.timers p).raw_fn (w.timers p).coro (λ h. h) w.resumed) t.raw_fn t.raw_arg
      t.coro n

Told-now :
    (raw : Option ℕ) (arg : ℕ) (coro : Option ℕ) (fired : List (ℕ × ℕ)) (resumed : List ℕ)
    → Told
        (elim raw [ some fn ↦ fired ++ (fn, arg) ∷ [] | none ↦ fired ])
        (elim raw [
          | some fn ↦ resumed
          | none ↦ elim coro [ some h ↦ resumed ++ h ∷ [] | none ↦ resumed ]
        ])
        raw
        arg
        coro
Told-now (some fn) arg coro fired resumed = In-append_right (fn, arg) fired _ (inl refl)
Told-now none arg (some h) fired resumed = In-append_right h resumed _ (inl refl)
Told-now none arg none fired resumed = tt

fire-Notified : (w : TimerWheel) (p : ℕ) → Notified (fire w p) (w.timers p)
unfolding fire
fire-Notified w p =
    Told-now (w.timers p).raw_fn (w.timers p).raw_arg (w.timers p).coro w.fired_raw w.resumed

pub add-timer :
    (w : TimerWheel) (p x q : ℕ)
    → SameOwner (w.timers q) ((add_timer_to_wheel w p x).timers q)
      × (is_active (add_timer_to_wheel w p x) q ≡ is_active w q)
unfolding add_timer_to_wheel
add-timer w p x q = ground arith

abbrev pub round : TimerWheel → ℕ → ℕ → ℕ → TimerWheel
round w l s p = swap_pop_at (visit w p) l s 0

pub swap_pop_at-Keeps : (w : TimerWheel) (l s at : ℕ) → Keeps w (swap_pop_at w l s at)
swap_pop_at-Keeps w l s at =
    let t = swap_pop_at-timer w l s at in
    record {
      same_levels = unfold swap_pop_at in refl;
      same_time = unfold swap_pop_at in refl;
      same_called = unfold swap_pop_at in refl;
      same_owner = λ q. (t q).0;
      stays_dead = λ q h. (t q).1 ∙ h;
      logged = λ u n. unfold swap_pop_at in n;
      notified = λ q h k. cc (t q).1;
    }

fire-Keeps : (w : TimerWheel) (p : ℕ) → Keeps w (fire w p)
fire-Keeps w p =
    let t = fire-timer w p in
    record {
      same_levels = unfold fire in refl;
      same_time = unfold fire in refl;
      same_called = unfold fire in refl;
      same_owner = λ q. (t q).0;
      stays_dead = λ q h. elim (ℕ_discrete q p) [ yes e ↦ rw e (t p).2 | no n ↦ (t q).1 n ∙ h ];
      logged = fire-logged w p;
      notified = λ q h k. elim (ℕ_discrete q p) [
        | yes e ↦ rw e (fire-Notified w p)
        | no n ↦ cc ((t q).1 n)
      ];
    }

pub add-Keeps : (w : TimerWheel) (p x : ℕ) → Keeps w (add_timer_to_wheel w p x)
add-Keeps w p x =
    let t = add-timer w p x in
    record {
      same_levels = unfold add_timer_to_wheel in refl;
      same_time = unfold add_timer_to_wheel in refl;
      same_called = unfold add_timer_to_wheel in refl;
      same_owner = λ q. (t q).0;
      stays_dead = λ q h. (t q).1 ∙ h;
      logged = λ u n. unfold add_timer_to_wheel in n;
      notified = λ q h k. cc (t q).1;
    }

-- What a visit does, by the state of the timer.
pub data Visit (w : TimerWheel) (p : ℕ) : Type 0 where
  dropped : is_active w p ≡ false → visit w p ≡ w → Visit w p
  fired : is_active w p ≡ true → expiry w p ≤ w.current_time → visit w p ≡ fire w p → Visit w p
  put_back :
      is_active w p ≡ true
      → w.current_time < expiry w p
      → visit w p ≡ add_timer_to_wheel w p (expiry w p)
      → Visit w p

pub Visit-cases : (w : TimerWheel) (p : ℕ) → Visit w p
Visit-cases w p = elim (Bool-cases (is_active w p)) [
  | inl a ↦ elim (dec_le (expiry w p) w.current_time) [
    | yes late ↦ fired a late (visit_due w p a late)
    | no early ↦ put_back a (omega arith) (visit_wait w p a (omega arith))
  ]
  | inr d ↦ dropped d (visit_dead w p d)
]

pub visit-Keeps : (w : TimerWheel) (p : ℕ) → Keeps w (visit w p)
visit-Keeps w p = elim (Visit-cases w p) [
  | dropped d e ↦ rw e (Keeps-refl w)
  | fired a late e ↦ rw e (fire-Keeps w p)
  | put_back a early e ↦ rw e (add-Keeps w p (expiry w p))
]

-- One round keeps what every step keeps.
pub round-Keeps : (w : TimerWheel) (l s p : ℕ) → Keeps w (round w l s p)
round-Keeps w l s p = Keeps-trans (visit-Keeps w p) (swap_pop_at-Keeps (visit w p) l s 0)
