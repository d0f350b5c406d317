-- ===== src/Wheel/Queued.antt =====
-- The queued operations keep every timer placed.
use uvent.Common.{
  ℕ, ◌+◌, ◌-◌, ◌*◌, ◌<◌, ◌≡◌, refl, ◌∙◌, inl, inr, false, [], ◌∷◌, arith, leb, ltb, Bool-cases,
  Option-cases, In, In-append, ◌==◌,
}
use native.Mathlib.Decide.{dec_lt}
use uvent.Common.Memory.{update}
use uvent.Timer.{Timer}
use uvent.Wheel.{TimerWheel, interval, add_timer_to_wheel, swap_pop_at, swap_pop, new_wheel}
use uvent.Wheel.Placement.{slot_for-Placed, slot_for-Overdue}
use uvent.Wheel.Bucket.{In-swap_pop_any}
use uvent.Wheel.Progress.{expiry, is_active}
use uvent.Wheel.Round.{target_level, target_slot, set_bucket_cases, add-Keeps, swap_pop_at-timer}
use uvent.Wheel.Slot.{add-buckets}
use uvent.Wheel.Advance.{IsPlaced, IsPlacedAt}
use uvent.Wheel.Cancel.{remove_timer_from_wheel, take_out, dispose, index_of, cancel_timer}
use uvent.Wheel.Tick.{apply_add}

pub new_wheel-IsPlaced :
    (levels now : ℕ) (timers : ℕ → Timer) → IsPlaced (new_wheel levels now timers)
unfolding new_wheel
new_wheel-IsPlaced levels now timers l s q h = elim h [ ]

-- One turn of the top level.
abbrev pub turn : TimerWheel → ℕ
turn w = interval (w.levels - 1) * 256

target_fits :
    (w : TimerWheel) (p : ℕ)
    → expiry w p < w.current_time + turn w
    → IsPlacedAt w (target_level w p) (target_slot w p) (expiry w p)
target_fits w p near = elim (dec_lt w.current_time (expiry w p)) [
  | yes early ↦
      let (placed, deep) = slot_for-Placed w.levels w.current_time (expiry w p) early near in
      (deep, inl placed)
  | no late ↦
      let over = slot_for-Overdue w.levels w.current_time (expiry w p) (omega arith) in
      (omega (arith, over.0), inr over)
]

-- Adding a timer that expires within a turn of the top level.
pub add_timer_to_wheel-IsPlaced :
    (w : TimerWheel) (p : ℕ)
    → IsPlaced w
    → expiry w p < w.current_time + turn w
    → IsPlaced (add_timer_to_wheel w p (expiry w p))
add_timer_to_wheel-IsPlaced w p ok near i j q h =
    let k = add-Keeps w p (expiry w p) in
    rw (k.same_levels, k.same_time, (k.same_owner q).0)
      (elim (add-buckets w p i j) [
        | inl (a, b, c) ↦ elim (In-append q (w.buckets i j) (p ∷ []) (rw c at h)) [
          | inl old ↦ ok i j q old
          | inr (inl y) ↦ rw (y, a, b) (target_fits w p near)
          | inr (inr y) ↦ elim y [ ]
        ]
        | inr c ↦ ok i j q (rw c at h)
      ])

-- The `ADD` case keeps every timer placed, if the new one expires within a turn of the top level.
pub apply_add-IsPlaced :
    (w : TimerWheel) (p id : ℕ)
    → IsPlaced w
    → expiry w p < w.current_time + turn w
    → IsPlaced (apply_add w p id)
unfolding apply_add dispose
apply_add-IsPlaced w p id ok near = elim (Bool-cases (w.detached_pending id)) [
  | inl d ↦ rw d ok
  | inr d ↦ elim (Bool-cases (w.cancelled_pending id)) [
    | inl c ↦ rw (d, c) ok
    | inr c ↦ rw (d, c) (add_timer_to_wheel-IsPlaced _ p ok near)
  ]
]

-- A step that brings no pointer into a bucket and keeps the expiries keeps every timer placed.
abbrev Shrinks : TimerWheel → TimerWheel → Type 0
Shrinks w w' =
    (w'.levels ≡ w.levels)
    × (w'.current_time ≡ w.current_time)
    × ((q : ℕ) → expiry w' q ≡ expiry w q)
    × ((l s q : ℕ) → In q (w'.buckets l s) → In q (w.buckets l s))

Shrinks-IsPlaced : (w w' : TimerWheel) → Shrinks w w' → IsPlaced w → IsPlaced w'
Shrinks-IsPlaced w w' (levels, time, same, back) ok l s q h =
    rw (levels, time, same q) (ok l s q (back l s q h))

swap_pop_at-Shrinks : (w : TimerWheel) (l s at : ℕ) → Shrinks w (swap_pop_at w l s at)
unfolding swap_pop_at
swap_pop_at-Shrinks w l s at = (
  refl,
  refl,
  λ q. (swap_pop_at-timer w l s at q).0.0,
  λ i j q h. elim (set_bucket_cases w.buckets l s (swap_pop at (w.buckets l s)) i j) [
    | inl (a, b, c) ↦ rw (a, b) (In-swap_pop_any q at (w.buckets l s) (rw c at h))
    | inr c ↦ rw c at h
  ],
)

Shrinks-refl : (w : TimerWheel) → Shrinks w w
Shrinks-refl w = (refl, refl, λ q. refl, λ l s q h. h)

Shrinks-trans : (u v w : TimerWheel) → Shrinks u v → Shrinks v w → Shrinks u w
Shrinks-trans u v w (a, b, c, d) (a', b', c', d') =
    (a' ∙ a, b' ∙ b, λ q. c' q ∙ c q, λ l s q h. d l s q (d' l s q h))

remove_timer_from_wheel-Shrinks : (w : TimerWheel) (p : ℕ) → Shrinks w (remove_timer_from_wheel w p)
unfolding remove_timer_from_wheel
remove_timer_from_wheel-Shrinks w p =
    let t = w.timers p in
    elim (Bool-cases (leb w.levels t.level)) [
      | inl far ↦ rw far (Shrinks-refl w)
      | inr near ↦
          elim (Option-cases (index_of p (w.buckets t.level t.slot_index) t.pos_in_bucket)) [
            | inl none_there ↦ rw (near, none_there) (Shrinks-refl w)
            | inr (at, found) ↦ rw (near, found) (swap_pop_at-Shrinks w t.level t.slot_index at)
          ]
    ]

deactivate : TimerWheel → ℕ → TimerWheel
deactivate w p = record w { timers = update w.timers p (record (w.timers p) { active = false }) }

deactivate-Shrinks : (w : TimerWheel) (p : ℕ) → Shrinks w (deactivate w p)
unfolding deactivate
deactivate-Shrinks w p = (refl, refl, λ q. ground arith, λ l s q h. h)

take_out-Shrinks : (w : TimerWheel) (id p : ℕ) → Shrinks w (take_out w id p)
unfolding take_out deactivate
take_out-Shrinks w id p =
    let (a, b, c, d) =
      Shrinks-trans w (deactivate w p) (remove_timer_from_wheel (deactivate w p) p)
        (deactivate-Shrinks w p) (remove_timer_from_wheel-Shrinks (deactivate w p) p) in
    (a, b, c, d)

-- `cancelTimer` keeps every timer placed.
pub cancel_timer-IsPlaced : (w : TimerWheel) (id : ℕ) → IsPlaced w → IsPlaced (cancel_timer w id).1
unfolding cancel_timer dispose
cancel_timer-IsPlaced w id ok = elim (Bool-cases (id == 0)) [
  | inl z ↦ rw z ok
  | inr z ↦ elim (Option-cases (w.timer_map id)) [
    | inl gone ↦ elim (Bool-cases (ltb w.max_added_id id)) [
      | inl new ↦ rw (z, gone, new) ok
      | inr old ↦ rw (z, gone, old) ok
    ]
    | inr (p, found) ↦ elim (Bool-cases (is_active w p)) [
      | inl live ↦
          rw (z, found, live) (Shrinks-IsPlaced w (take_out w id p) (take_out-Shrinks w id p) ok)
      | inr dead ↦ rw (z, found, dead) ok
    ]
  ]
]
