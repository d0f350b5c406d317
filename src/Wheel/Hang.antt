-- ===== src/Wheel/Hang.antt =====
-- A timer whose expiry lies a whole turn of the top level or more ahead when its slot comes up: the
-- slot processing puts it back into the bucket that it is emptying.
use uvent.Common.{
  ℕ, zero, suc, ◌+◌, ◌-◌, ◌*◌, ◌/◌, ◌%◌, ◌≤◌, ◌<◌, ◌≡◌, refl, subst, ap, ◌∙◌, true, none, le→leb,
  get_or, length, take, length-append, List, [], ◌++◌, ◌∷◌, arith, ◌==◌, false,
}
use native.Mathlib.Nat.{mod-add-div'}
use uvent.Wheel.Bucket.{zero_eq_suc}
use uvent.Wheel.{
  TimerWheel, interval, level_for, distance, slot_for, swap_pop_at, swap_pop, add_timer_to_wheel,
  process_from,
}
use uvent.Wheel.Placement.{distance_ahead, interval-pos, interval-le, mask_slots}
use uvent.Wheel.Progress.{expiry, is_active}
use uvent.Wheel.Round.{
  target_level, target_slot, round, round-Keeps, visit_wait, set_bucket_self, swap_pop_at-timer,
  add-timer,
}

-- The slot `s` of the top level comes up, its bucket begins with the active timer `p`, and `p`
-- expires in the slot `k + 1` turns of that level later.
pub record IsFarAhead (w : TimerWheel) (s p k : ℕ) (rest : List ℕ) : Type 0 where
  pub first : w.buckets (w.levels - 1) s ≡ p ∷ rest
  pub armed : is_active w p ≡ true
  pub whole : w.current_time % interval (w.levels - 1) ≡ 0
  pub up : s ≡ w.current_time / interval (w.levels - 1) % 256
  pub ahead :
      expiry w p / interval (w.levels - 1) ≡ w.current_time / interval (w.levels - 1) + 256 * suc k

-- A longer distance goes to the top level.
level_for_top :
    (above level diff : ℕ)
    → interval (level + above) * 256 ≤ diff
    → level_for above level diff ≡ level + above
unfolding level_for
level_for_top zero level diff h = omega arith
level_for_top (suc above) level diff h =
    let top : level + suc above ≡ level + 1 + above = omega arith in
    let low : interval level * 256 ≤ diff = omega (arith, h, interval-le level (suc above)) in
    rw (le→leb _ _ low) (level_for_top above (level + 1) diff (rw top at h) ∙ omega arith)

get_or_last : (p : ℕ) (rest : List ℕ) → get_or (rest ++ p ∷ []) (length rest) 0 ≡ p
get_or_last p [] = refl
get_or_last p (x ∷ rest) = get_or_last p rest

take_front : (p : ℕ) (rest : List ℕ) → take (length rest) (rest ++ p ∷ []) ≡ rest
take_front p [] = refl
take_front p (x ∷ rest) = ap (λ ys. x ∷ ys) (take_front p rest)

-- Taking out the first pointer after pushing the same one at the end changes nothing.
swap_pop_back : (p : ℕ) (rest : List ℕ) → swap_pop 0 (p ∷ (rest ++ p ∷ [])) ≡ p ∷ rest
unfolding swap_pop
swap_pop_back p rest =
    let n : length (p ∷ (rest ++ p ∷ [])) - 1 ≡ suc (length rest) =
      omega (arith, length-append rest (p ∷ [])) in
    rw (n, zero_eq_suc (length rest), get_or_last p rest, take_front p rest)

far_distance :
    (now i x k : ℕ) → 0 < i → now % i ≡ 0 → x / i ≡ now / i + 256 * suc k → now + i * 256 ≤ x
far_distance now i x k p whole ahead =
    let q : (now / i + 256 * suc k) * i ≤ x = rw (← ahead) (grind (arith, mod-add-div' x i)) in
    let n : now ≡ now / i * i = grind (arith, mod-add-div' now i) in grind arith

module _ (w : TimerWheel) (s p k : ℕ) (rest : List ℕ) (far : IsFarAhead w s p k rest) where
  top_distance : w.current_time + interval (w.levels - 1) * 256 ≤ expiry w p
  top_distance =
      far_distance w.current_time (interval (w.levels - 1)) (expiry w p) k
        (interval-pos (w.levels - 1)) far.whole far.ahead

  not_due : w.current_time < expiry w p
  not_due = omega (arith, top_distance, interval-pos (w.levels - 1))

  same_level : target_level w p ≡ w.levels - 1
  same_level =
      let d = distance_ahead w.current_time (expiry w p) not_due in
      let top : 0 + (w.levels - 1) ≡ w.levels - 1 = omega arith in
      level_for_top (w.levels - 1) 0 (distance w.current_time (expiry w p))
        (rw (top, d) (omega (arith, top_distance)))
      ∙ top

  same_slot : target_slot w p ≡ s
  unfolding slot_for
  same_slot =
      let d = distance_ahead w.current_time (expiry w p) not_due in
      let nonzero : (distance w.current_time (expiry w p) == 0) ≡ false =
        ground (arith, d, not_due) in
      rw (same_level, nonzero, mask_slots (expiry w p / interval (w.levels - 1)), far.ahead, far.up)
        (omega arith)

  added_bucket :
      (add_timer_to_wheel w p (expiry w p)).buckets (w.levels - 1) s ≡ p ∷ (rest ++ p ∷ [])
  unfolding add_timer_to_wheel
  added_bucket =
      rw (same_slot, same_level)
        (set_bucket_self w.buckets (w.levels - 1) s (w.buckets (w.levels - 1) s ++ p ∷ [])
          ∙ ap (λ b. b ++ p ∷ []) far.first)

  round_bucket : (round w (w.levels - 1) s p).buckets (w.levels - 1) s ≡ p ∷ rest
  unfolding swap_pop_at
  round_bucket =
      let v = add_timer_to_wheel w p (expiry w p) in
      rw (visit_wait w p far.armed not_due) (
        set_bucket_self v.buckets (w.levels - 1) s (swap_pop 0 (v.buckets (w.levels - 1) s))
        ∙ ap (swap_pop 0) added_bucket
        ∙ swap_pop_back p rest)

  round_active : is_active (round w (w.levels - 1) s p) p ≡ true
  round_active = rw (visit_wait w p far.armed not_due) (
      (swap_pop_at-timer (add_timer_to_wheel w p (expiry w p)) (w.levels - 1) s 0 p).1
      ∙ (add-timer w p (expiry w p) p).1
      ∙ far.armed)

  round-IsFarAhead : IsFarAhead (round w (w.levels - 1) s p) s p k rest
  round-IsFarAhead =
      let kept = round-Keeps w (w.levels - 1) s p in
      record {
        first = rw kept.same_levels round_bucket;
        armed = round_active;
        whole = rw (kept.same_levels, kept.same_time) far.whole;
        up = rw (kept.same_levels, kept.same_time) far.up;
        ahead = rw (kept.same_levels, kept.same_time, (kept.same_owner p).0) far.ahead;
      }

-- When a slot of the top level comes up whose bucket begins with an active timer that expires in
-- that slot one or more whole turns later, `processSlot` puts the timer back where it takes it
-- from: its loop never ends, whatever the number of rounds.
pub process_from-IsFarAhead :
    (fuel : ℕ) (w : TimerWheel) (s p k : ℕ) (rest : List ℕ)
    → IsFarAhead w s p k rest
    → process_from fuel 0 w (w.levels - 1) s ≡ none
unfolding process_from
process_from-IsFarAhead zero w s p k rest far = refl
process_from-IsFarAhead (suc fuel) w s p k rest far =
    let v = round w (w.levels - 1) s p in
    let kept = round-Keeps w (w.levels - 1) s p in
    let ih = process_from-IsFarAhead fuel v s p k rest (round-IsFarAhead w s p k rest far) in
    rw (far.first, process_from)
      (subst (λ l. process_from fuel 0 v l s ≡ none) (ap (λ n. n - 1) kept.same_levels) ih)
