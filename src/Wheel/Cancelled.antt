-- ===== src/Wheel/Cancelled.antt =====
-- `cancelTimer` takes the timer out of its bucket, and no other.
use uvent.Common.{
  ℕ, suc, ◌+◌, ◌≤◌, ◌<◌, ◌≡◌, ◌≢◌, ◌⊎◌, refl, sym, ap, subst, ◌∙◌, inl, inr, true, false, List, [],
  ◌∷◌, arith, get_elem?, In, ◌==◌, ==_iff, ne→==-false, leb, lt→leb-false, Bool-cases, some, none,
  Option-cases,
}
use uvent.Common.Memory.{update, update_self, update_ne}
use uvent.Timer.{Timer}
use uvent.Wheel.{TimerWheel, swap_pop, swap_pop_at}
use uvent.Wheel.Count.{one, count, count-swap_pop}
use uvent.Wheel.Progress.{is_active}
use uvent.Wheel.Round.{set_bucket_self, set_bucket_cases, swap_pop_at-timer}
use uvent.Wheel.Advance.{IsPlaced}
use uvent.Wheel.Cancel.{
  find_index, index_of, remove_timer_from_wheel, take_out, dispose, cancel_timer,
}
use uvent.Wheel.Queued.{cancel_timer-IsPlaced}

-- A pointer that stands in a bucket is found there.
find_index-In :
    (p : ℕ) (xs : List ℕ)
    → In p xs
    → (i : ℕ) × (find_index p xs ≡ some i) × (get_elem? xs i ≡ some p)
unfolding find_index
find_index-In p [] h = elim h [ ]
find_index-In p (x ∷ xs) h = elim (Bool-cases (x == p)) [
  | inl z ↦ (0, rw z, ap some ((==_iff x p).0 z))
  | inr z ↦
      let k : In p xs = elim h [ inl e ↦ absurd (differ x z e) | inr i ↦ i ] in
      let (i, found, there) = find_index-In p xs k in
      (i + 1, rw (z, found), ap (get_elem? (x ∷ xs)) (next i) ∙ there)
]
  where
    differ : (x : ℕ) → (x == p) ≡ false → p ≡ x → ⊥
    differ x z e = ground (arith, z, e)

    next : (i : ℕ) → i + 1 ≡ suc i
    next i = omega arith

index_of-In :
    (p : ℕ) (xs : List ℕ) (pos : ℕ)
    → In p xs
    → (i : ℕ) × (index_of p xs pos ≡ some i) × (get_elem? xs i ≡ some p)
unfolding index_of
index_of-In p xs pos h = elim (Option-cases (get_elem? xs pos)) [
  | inl none_there ↦
      let (i, found, there) = find_index-In p xs h in (i, rw (none_there, index_of, found), there)
  | inr (q, e) ↦ elim (Bool-cases (q == p)) [
    | inl z ↦ (pos, rw (e, index_of, z), e ∙ ap some ((==_iff q p).0 z))
    | inr z ↦ let (i, found, there) = find_index-In p xs h in (i, rw (e, index_of, z, found), there)
  ]
]

-- What leaves the bucket `l`, `s` and what else stays, from the wheel `u` to the wheel `v`.
pub record Left (l s p : ℕ) (u v : TimerWheel) : Type 0 where
  pub removed : (q : ℕ) → count q (v.buckets l s) + one q p ≡ count q (u.buckets l s)
  pub others : (i j : ℕ) → ((i ≡ l) × (j ≡ s)) ⊎ (v.buckets i j ≡ u.buckets i j)
  pub lives : (q : ℕ) → q ≢ p → is_active v q ≡ is_active u q

swap_pop_at-Left :
    (w : TimerWheel) (l s at p : ℕ)
    → get_elem? (w.buckets l s) at ≡ some p
    → Left l s p w (swap_pop_at w l s at)
unfolding swap_pop_at
swap_pop_at-Left w l s at p e = record {
  removed = λ q.
      ap (λ b. count q b + one q p) (set_bucket_self w.buckets l s (swap_pop at (w.buckets l s)))
      ∙ count-swap_pop q at p (w.buckets l s) e;
  others = λ i j. elim (set_bucket_cases w.buckets l s (swap_pop at (w.buckets l s)) i j) [
    | inl (a, b, c) ↦ inl (a, b)
    | inr c ↦ inr c
  ];
  lives = λ q d. (swap_pop_at-timer w l s at q).1;
}

remove_timer_from_wheel-Left :
    (u : TimerWheel) (p : ℕ)
    → (u.timers p).level < u.levels
    → In p (u.buckets (u.timers p).level (u.timers p).slot_index)
    → Left (u.timers p).level (u.timers p).slot_index p u (remove_timer_from_wheel u p)
      × (is_active (remove_timer_from_wheel u p) p ≡ is_active u p)
unfolding remove_timer_from_wheel
remove_timer_from_wheel-Left u p deep there =
    let t = u.timers p in
    let near : leb u.levels t.level ≡ false = lt→leb-false u.levels t.level deep in
    let (at, found, here) = index_of-In p (u.buckets t.level t.slot_index) t.pos_in_bucket there in
    let left = swap_pop_at-Left u t.level t.slot_index at p here in
    rw (near, found)
      (
        record { removed = left.removed; others = left.others; lives = left.lives },
        (swap_pop_at-timer u t.level t.slot_index at p).1,
      )

-- What `cancelTimer` leaves of the wheel `w`, for the timer `p`.
pub record Cancelled (id p : ℕ) (w v : TimerWheel) : Type 0 where
  pub placed : IsPlaced v
  pub dead : is_active v p ≡ false
  pub forgotten : v.timer_map id ≡ none
  pub left : Left (w.timers p).level (w.timers p).slot_index p w v

abbrev off : Timer → Timer
off t = record t { active = false }

abbrev switched : TimerWheel → ℕ → TimerWheel
switched w p = record w { timers = update w.timers p (off (w.timers p)) }

-- The timer is taken out of its bucket after it was switched off.
take_out-Left :
    (w : TimerWheel) (id p : ℕ)
    → (w.timers p).level < w.levels
    → In p (w.buckets (w.timers p).level (w.timers p).slot_index)
    → Left (w.timers p).level (w.timers p).slot_index p w (take_out w id p)
      × (is_active (take_out w id p) p ≡ false)
      × ((take_out w id p).timer_map id ≡ none)
unfolding take_out remove_timer_from_wheel
take_out-Left w id p deep there =
    let t = w.timers p in
    let u = switched w p in
    let self : u.timers p ≡ off t = update_self w.timers p (off t) in
    let r =
      remove_timer_from_wheel-Left u p (subst (λ a. a.level < w.levels) (sym self) deep)
        (subst (λ a. In p (w.buckets a.level a.slot_index)) (sym self) there) in
    let left = subst (λ a. Left a.level a.slot_index p u (remove_timer_from_wheel u p)) self r.0 in
    (
      record {
        removed = left.removed;
        others = left.others;
        lives = λ q d. left.lives q d ∙ ap (λ a. a.active) (update_ne w.timers (off t) d);
      },
      r.1 ∙ ap (λ a. a.active) self,
      update_self (remove_timer_from_wheel u p).timer_map id none,
    )

taken :
    (w : TimerWheel) (id p : ℕ)
    → id ≢ 0
    → w.timer_map id ≡ some p
    → is_active w p ≡ true
    → cancel_timer w id ≡ (true, dispose (take_out w id p) p)
unfolding cancel_timer
taken w id p real mapped live =
    let given : (id == 0) ≡ false = ne→==-false id 0 real in rw (given, mapped, live) refl

-- `cancelTimer` of the id of a live timer that stands in the bucket it records, in a wheel of one level or
-- more whose timers are all placed, succeeds: the timer is no longer active, its id is forgotten, its bucket
-- has it once less and every other pointer as often as before, no other bucket changes, every other timer is
-- as active as before, and all timers are placed.
pub cancel_timer-Cancelled :
    (w : TimerWheel) (id p : ℕ)
    → IsPlaced w
    → 1 ≤ w.levels
    → id ≢ 0
    → w.timer_map id ≡ some p
    → is_active w p ≡ true
    → In p (w.buckets (w.timers p).level (w.timers p).slot_index)
    → ((cancel_timer w id).0 ≡ true) × Cancelled id p w (cancel_timer w id).1
unfolding dispose
cancel_timer-Cancelled w id p ok some_level real mapped live there =
    let same = taken w id p real mapped live in
    let t = w.timers p in
    let deep : t.level < w.levels =
      omega (arith, (ok t.level t.slot_index p there).0, some_level) in
    let (left, dead, forgotten) = take_out-Left w id p deep there in
    (
      ap (λ r. r.0) same,
      subst (λ r. Cancelled id p w r.1) (sym same)
          (record {
            placed = subst (λ r. IsPlaced r.1) same (cancel_timer-IsPlaced w id ok);
            dead = dead;
            forgotten = forgotten;
            left = record { removed = left.removed; others = left.others; lives = left.lives };
          }),
    )
