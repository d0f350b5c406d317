-- ===== src/Wheel/Slot.antt =====
-- `processSlot`: the whole loop over the bucket whose slot has come up.
use native.Mathlib.Decide.{ℕ_discrete}
use uvent.Common.{
  subst, ℕ, zero, suc, ◌+◌, ◌-◌, ◌/◌, ◌%◌, ◌≤◌, ◌<◌, ◌≡◌, refl, sym, ap, ap₂, ◌∙◌, ◌⊎◌, inl, inr,
  true, some, List, [], ◌∷◌, ◌++◌, arith, In, In-append_left, In-append_right, In-append, length,
}
use uvent.Wheel.{
  TimerWheel, interval, add_timer_to_wheel, swap_pop_at, fire, visit, process_from, process_slot,
}
use uvent.Wheel.Placement.{Placed, Ripe, Placed-not_due, slot_for-Placed, interval-pos, interval-le}
use uvent.Wheel.Progress.{
  expiry, is_active, Keeps, Keeps-refl, Keeps-trans, Survives, Survives-trans,
}
use uvent.Wheel.Fires.{FiresSome, FiresSome-refl, FiresSome-trans, round-FiresSome}
use uvent.Wheel.Round.{
  target_level, target_slot, set_bucket_cases, set_bucket_self, swap_pop_at-back, swap_pop_at-stays,
  length-swap_pop_at, swap_pop_at-timer, round, fire-timer, add-timer, round-Keeps, Visit-cases,
  dropped, fired, put_back,
}

-- A bucket's place for a timer: in time, or its slot comes up now on a level below `k`.
abbrev pub Fits : ℕ → ℕ → ℕ → ℕ → ℕ → ℕ → Type 0
Fits k levels now l s x =
    (l ≤ levels - 1) × (Placed now (interval l) s x ⊎ ((l < k) × Ripe now (interval l) s x))

abbrev pub Sorted : ℕ → TimerWheel → Type 0
Sorted k w = (l s q : ℕ) → In q (w.buckets l s) → Fits k w.levels w.current_time l s (expiry w q)

-- `addTimerToWheel` appends to the target's bucket.
pub add-buckets :
    (w : TimerWheel) (p i j : ℕ)
    → ((i ≡ target_level w p)
        × (j ≡ target_slot w p)
        × ((add_timer_to_wheel w p (expiry w p)).buckets i j ≡ w.buckets i j ++ p ∷ []))
      ⊎ ((add_timer_to_wheel w p (expiry w p)).buckets i j ≡ w.buckets i j)
unfolding add_timer_to_wheel
add-buckets w p i j =
    let l = target_level w p in
    let s = target_slot w p in
    elim (set_bucket_cases w.buckets l s (w.buckets l s ++ p ∷ []) i j) [
      | inl (a, b, c) ↦ inl (a, b, c ∙ ap (λ x. x ++ p ∷ []) (ap₂ w.buckets (sym a) (sym b)))
      | inr c ↦ inr c
    ]

add_stays :
    (w : TimerWheel) (p q i j : ℕ)
    → In q (w.buckets i j)
    → In q ((add_timer_to_wheel w p (expiry w p)).buckets i j)
add_stays w p q i j h = elim (add-buckets w p i j) [
  | inl (a, b, c) ↦ rw c (In-append_left q (w.buckets i j) (p ∷ []) h)
  | inr c ↦ rw c h
]

add_arrives :
    (w : TimerWheel) (p : ℕ)
    → In p ((add_timer_to_wheel w p (expiry w p)).buckets (target_level w p) (target_slot w p))
unfolding add_timer_to_wheel
add_arrives w p =
    rw (set_bucket_self w.buckets (target_level w p) (target_slot w p) _)
      (In-append_right p (w.buckets (target_level w p) (target_slot w p)) (p ∷ []) (inl refl))

-- The bucket at hand: its slot comes up now, and the round takes its first pointer.
module _ (w : TimerWheel) (l s p : ℕ) (rest : List ℕ) (e : w.buckets l s ≡ p ∷ rest)
    (whole : w.current_time % interval l ≡ 0) (up : s ≡ w.current_time / interval l % 256)
    (sorted : Sorted (suc l) w) where
  -- The pointer at hand expires before the slot ends.
  first_Ripe : Ripe w.current_time (interval l) s (expiry w p)
  first_Ripe = elim (sorted l s p (rw e (inl refl))).1 [
    | inl placed ↦
        absurd (
          Placed-not_due w.current_time (interval l) s (expiry w p) (interval-pos l) whole up
            placed)
    | inr (_, ripe) ↦ ripe
  ]

  -- Put back, it goes where it is in time.
  put_back_Placed :
      w.current_time < expiry w p
      → Placed w.current_time (interval (target_level w p)) (target_slot w p) (expiry w p)
        × (target_level w p ≤ w.levels - 1)
  put_back_Placed early =
      let deep = (sorted l s p (rw e (inl refl))).0 in
      let top : l + (w.levels - 1 - l) ≡ w.levels - 1 = omega arith in
      let wide : interval l ≤ interval (w.levels - 1) =
        rw top at (interval-le l (w.levels - 1 - l)) in
      slot_for-Placed w.levels w.current_time (expiry w p) early (omega (arith, first_Ripe.2, wide))

  -- So it goes to another bucket.
  moves_away : w.current_time < expiry w p → ¬ ((l ≡ target_level w p) × (s ≡ target_slot w p))
  moves_away early (a, b) =
      Placed-not_due w.current_time (interval l) s (expiry w p) (interval-pos l) whole up
        (rw (a, b) (put_back_Placed early).0)

  visit_bucket : (visit w p).buckets l s ≡ p ∷ rest
  visit_bucket = elim (Visit-cases w p) [
    | dropped d x ↦ rw x e
    | fired a late x ↦ rw x (unfold fire in e)
    | put_back a early x ↦ rw x (elim (add-buckets w p l s) [
      | inl (a, b, c) ↦ absurd (moves_away early (a, b))
      | inr c ↦ c ∙ e
    ])
  ]

  -- A round brings no pointer to a place that is wrong.
  visit-Fits :
      (q i j : ℕ)
      → In q ((visit w p).buckets i j)
      → Fits (suc l) w.levels w.current_time i j (expiry w q)
  visit-Fits q i j h = elim (Visit-cases w p) [
    | dropped d x ↦ sorted i j q (rw x at h)
    | fired a late x ↦ sorted i j q (unfold fire in (rw x at h))
    | put_back a early x ↦ elim (add-buckets w p i j) [
      | inl (a, b, c) ↦ elim (In-append q (w.buckets i j) (p ∷ []) (rw (x, c) at h)) [
        | inl old ↦ sorted i j q old
        | inr new ↦ elim new [
          | inl y ↦ let (placed, deep) = put_back_Placed early in rw (y, a, b) (deep, inl placed)
          | inr y ↦ elim y [ ]
        ]
      ]
      | inr c ↦ sorted i j q (rw (x, c) at h)
    ]
  ]

  pub round-Sorted : Sorted (suc l) (round w l s p)
  round-Sorted i j q h =
      let k = round-Keeps w l s p in
      rw (k.same_levels, k.same_time, (k.same_owner q).0)
        (visit-Fits q i j (swap_pop_at-back (visit w p) l s p rest visit_bucket q i j h))

  pub length-round : length ((round w l s p).buckets l s) ≡ length rest
  length-round = length-swap_pop_at (visit w p) l s p rest visit_bucket

  -- A pointer in a bucket is still in one after the round, if the round puts its own back.
  still_there :
      is_active w p ≡ true
      → w.current_time < expiry w p
      → visit w p ≡ add_timer_to_wheel w p (expiry w p)
      → (q i j : ℕ) → In q (w.buckets i j)
      → (m : ℕ) × (n : ℕ) × In q
          ((swap_pop_at (add_timer_to_wheel w p (expiry w p)) l s 0).buckets m n)
  still_there b early x q i j h =
      let v = add_timer_to_wheel w p (expiry w p) in
      let first : v.buckets l s ≡ p ∷ rest = rw x at visit_bucket in
      let stays = swap_pop_at-stays v l s p rest first in
      elim (stays q i j (add_stays w p q i j h)) [
        | inl y ↦ (i, j, y)
        | inr (y, _, _) ↦ elim (stays p (target_level w p) (target_slot w p) (add_arrives w p)) [
          | inl z ↦ (target_level w p, target_slot w p, rw y z)
          | inr (_, lev, pos) ↦ absurd (moves_away early (sym lev, sym pos))
        ]
      ]

  -- The timer at hand is no longer live only if it was due; every other one stays.
  pub round-Survives : Survives w (round w l s p)
  round-Survives q (a, i, j, h) = elim (Visit-cases w p) [
    | dropped d x ↦ elim (swap_pop_at-stays w l s p rest e q i j h) [
      | inl y ↦ inl (rw x (unmoved w q ∙ a, i, j, y))
      | inr y ↦ cc (ap (is_active w) y.0)
    ]
    | fired b late x ↦ elim (ℕ_discrete q p) [
      | yes y ↦ inr (rw y late, rw (x, y) (unmoved (fire w p) p ∙ (fire-timer w p p).2))
      | no n ↦
          elim (swap_pop_at-stays (fire w p) l s p rest (unfold fire in e) q i j
            (unfold fire in h)) [
              | inl y ↦ inl (rw x (unmoved (fire w p) q ∙ (fire-timer w p q).1 n ∙ a, i, j, y))
              | inr y ↦ absurd (n y.0)
            ]
    ]
    | put_back b early x ↦
        let (m, n, y) = still_there b early x q i j h in
        inl (rw x (unmoved _ q ∙ (add-timer w p (expiry w p) q).1 ∙ a, m, n, y))
  ]
    where
      unmoved : (v : TimerWheel) (r : ℕ) → is_active (swap_pop_at v l s 0) r ≡ is_active v r
      unmoved v r = (swap_pop_at-timer v l s 0 r).1

-- The whole loop, with fuel beyond the length of the bucket: it ends, the bucket is empty, and
-- every timer that was due is out of the wheel.
pub record Processed (w : TimerWheel) (l s : ℕ) (w' : TimerWheel) : Type 0 where
  pub keeps : Keeps w w'
  pub survives : Survives w w'
  pub sorted : Sorted (suc l) w'
  pub emptied : w'.buckets l s ≡ []
  pub fires : FiresSome w.current_time w w'

pub process_from-Processed :
    (fuel : ℕ) (w : TimerWheel) (l s : ℕ) (bucket : List ℕ)
    → w.buckets l s ≡ bucket
    → length bucket < fuel
    → w.current_time % interval l ≡ 0
    → s ≡ w.current_time / interval l % 256
    → Sorted (suc l) w
    → (w' : TimerWheel) × (process_from fuel 0 w l s ≡ some w') × Processed w l s w'
unfolding process_from
process_from-Processed zero w l s bucket e h whole up sorted = absurd (omega arith)
process_from-Processed (suc fuel) w l s [] e h whole up sorted = (
  w,
  rw (e, process_from),
  record {
    keeps = Keeps-refl w;
    survives = λ q live. inl live;
    sorted = sorted;
    emptied = e;
    fires = FiresSome-refl w.current_time w;
  },
)
process_from-Processed (suc fuel) w l s (p ∷ rest) e h whole up sorted =
    let v = round w l s p in
    let k = round-Keeps w l s p in
    let short = length-round w l s p rest e whole up sorted in
    let (w', result, done) =
      process_from-Processed fuel v l s (v.buckets l s) refl (omega (arith, short, h))
        (rw k.same_time whole) (rw k.same_time up) (round-Sorted w l s p rest e whole up sorted) in
    (
      w',
      rw (e, process_from) result,
      record {
        keeps = Keeps-trans k done.keeps;
        survives =
            Survives-trans k done.keeps (round-Survives w l s p rest e whole up sorted)
              done.survives;
        sorted = done.sorted;
        emptied = done.emptied;
        fires =
            FiresSome-trans w.current_time w v w' k done.keeps (round-FiresSome w l s p)
              (subst (λ now. FiresSome now v w') k.same_time done.fires);
      },
    )

-- `processSlot` at a slot that comes up.
pub process_slot-Processed :
    (w : TimerWheel) (l s : ℕ)
    → w.current_time % interval l ≡ 0
    → s ≡ w.current_time / interval l % 256
    → Sorted (suc l) w
    → (w' : TimerWheel) × (process_slot w l s ≡ some w') × Processed w l s w'
unfolding process_slot
process_slot-Processed w l s whole up sorted =
    process_from-Processed (suc (length (w.buckets l s))) w l s (w.buckets l s) refl (omega arith)
      whole up sorted
