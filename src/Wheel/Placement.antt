-- ===== src/Wheel/Placement.antt =====
-- Where a timer belongs: the slot chosen by `addTimerToWheel` is visited in time, and not before.
use Prim.Native.Nat.{bit_and}
use native.Mathlib.Nat.{add-zero, pow-suc, div-lt_iff_lt-mul}
use native.Mathlib.Decide.{dec_lt}
use native.Mathlib.Numerals.{towards_suc}
use uvent.Common.{
  ℕ, zero, suc, ◌+◌, ◌-◌, ◌*◌, ◌/◌, ◌%◌, ◌^◌, ◌≤◌, ◌<◌, ◌≡◌, refl, ◌≢◌, ◌⊎◌, inl, inr, arith, leb,
  ap, ◌∙◌, Bool-cases, leb→le, leb-false→lt,
}
use uvent.Common.Bits.{bit_and_mask, pow-pos}
use uvent.Wheel.{slots, interval, level_for, distance, slot_for}

-- In `slot` of the level whose slots last `i` ms, in time for `expiry`: the slot comes up after
-- `now`, within one turn of the wheel, and not after the expiry.
abbrev pub Placed : ℕ → ℕ → ℕ → ℕ → Type 0
Placed now i slot expiry =
    (now / i < expiry / i) × (expiry < now + 256 * i) × (slot ≡ expiry / i % 256)

-- In the slot of that level that comes up at `now`.
abbrev pub Ripe : ℕ → ℕ → ℕ → ℕ → Type 0
Ripe now i slot expiry = (now % i ≡ 0) × (slot ≡ now / i % 256) × (expiry < now + i)

-- Overdue when it was added: in the slot of level 0 that comes up next.
abbrev pub Overdue : ℕ → ℕ → ℕ → ℕ → Type 0
Overdue now level slot expiry = (level ≡ 0) × (slot ≡ (now + 1) % 256) × (expiry ≤ now)

pub interval-zero : interval 0 ≡ 1
interval-zero = refl

pow_eight : (n : ℕ) → 2 ^ (n + 8) ≡ 2 ^ n * 256
pow_eight n = simp towards_suc (simp pow-suc (omega arith))

eight_more : (l : ℕ) → 8 * suc l ≡ 8 * l + 8
eight_more l = omega arith

pub interval-suc : (l : ℕ) → interval (suc l) ≡ interval l * 256
interval-suc l = simp (pow_eight (8 * l), eight_more l)

pub interval-pos : (l : ℕ) → 0 < interval l
interval-pos l = pow-pos (8 * l)

-- A quotient is known from the block that the number lies in.
div_unique : (n q i : ℕ) → q * i ≤ n → n < q * i + i → n / i ≡ q
div_unique n q i lo hi = grind arith

-- One more: the quotient grows exactly when the remainder comes round to 0.
div_next :
    (n i : ℕ)
    → 0 < i
    → (((n + 1) % i ≡ 0) × ((n + 1) / i ≡ n / i + 1)) ⊎ (((n + 1) % i ≢ 0) × ((n + 1) / i ≡ n / i))
div_next n i p = elim (dec_lt (n % i + 1) i) [
  | yes h ↦
      let q : (n + 1) / i ≡ n / i = div_unique (n + 1) (n / i) i (grind arith) (grind arith) in
      inr (grind arith, q)
  | no h ↦
      let q : (n + 1) / i ≡ n / i + 1 =
        div_unique (n + 1) (n / i + 1) i (grind arith) (grind arith) in
      inl (grind arith, q)
]

-- A placed timer has not expired.
pub Placed-lt : (now i slot expiry : ℕ) → 0 < i → Placed now i slot expiry → now < expiry
Placed-lt now i slot expiry p h = grind arith

-- The next millisecond leaves a placed timer placed, or its slot comes up.
pub Placed-next :
    (now i slot expiry : ℕ)
    → 0 < i
    → Placed now i slot expiry
    → Placed (now + 1) i slot expiry ⊎ Ripe (now + 1) i slot expiry
Placed-next now i slot expiry p h = grind (arith, div_next now i p)

-- A placed timer is not in the slot that comes up.
pub Placed-not_due :
    (now i slot expiry : ℕ)
    → 0 < i
    → now % i ≡ 0
    → slot ≡ now / i % 256
    → ¬ Placed now i slot expiry
Placed-not_due now i slot expiry p a e h =
    let whole : now ≡ now / i * i = grind arith in
    let near : expiry / i < now / i + 256 =
      (div-lt_iff_lt-mul {k = i} {x = expiry} {y = now / i + 256} p).1 (grind arith) in
    omega arith

-- A timer that is due is overdue at once, and its slot comes up next.
pub Overdue-next :
    (now l slot expiry : ℕ) → Overdue now l slot expiry → Ripe (now + 1) (interval l) slot expiry
Overdue-next now l slot expiry (e, s, h) = rw e (omega (arith, s, h))

interval-next : (l : ℕ) → interval (l + 1) ≡ interval l * 256
interval-next l = ap interval (omega arith) ∙ interval-suc l

pub interval-le : (a b : ℕ) → interval a ≤ interval (a + b)
interval-le a zero = rw add-zero (omega arith)
interval-le a (suc b) =
    let more : a + suc b ≡ suc (a + b) = omega arith in
    rw more (omega (arith, interval-suc (a + b), interval-le a b))

abbrev Reached : ℕ → ℕ → Type 0
Reached level diff = (level ≡ 0) ⊎ (interval level ≤ diff)

-- No level is chosen whose slots are longer than the distance, but for level 0.
level_for-Reached :
    (above level diff : ℕ) → Reached level diff → Reached (level_for above level diff) diff
unfolding level_for
level_for-Reached zero level diff r = r
level_for-Reached (suc above) level diff r = elim (Bool-cases (leb (interval level * 256) diff)) [
  | inl h ↦ rw h (
      level_for-Reached above (level + 1) diff
        (inr (omega (arith, interval-next level, leb→le _ _ h))))
  | inr h ↦ rw h r
]

-- The level chosen turns more slowly than the distance, if the top level does.
level_for_within :
    (above level diff : ℕ)
    → diff < interval (level + above) * 256
    → (diff < interval (level_for above level diff) * 256)
      × (level_for above level diff ≤ level + above)
unfolding level_for
level_for_within zero level diff h = (rw add-zero at h, omega arith)
level_for_within (suc above) level diff h = elim (Bool-cases (leb (interval level * 256) diff)) [
  | inl e ↦
      let top : level + suc above ≡ level + 1 + above = omega arith in
      let ih = level_for_within above (level + 1) diff (rw top at h) in
      rw e (ih.0, omega (arith, ih.1))
  | inr e ↦ rw e (leb-false→lt _ _ e, omega arith)
]

-- `&` with 255 is the remainder by 256.
pub mask_slots : (n : ℕ) → bit_and n (slots - 1) ≡ n % 256
mask_slots n = bit_and_mask 8 n

abbrev pub level_of : ℕ → ℕ → ℕ → ℕ
level_of levels now expiry = level_for (levels - 1) 0 (distance now expiry)

pub distance_ahead : (now expiry : ℕ) → now < expiry → distance now expiry ≡ expiry - now
unfolding distance
distance_ahead now expiry h = ground arith

distance_past : (now expiry : ℕ) → expiry ≤ now → distance now expiry ≡ 0
unfolding distance
distance_past now expiry h = ground arith

-- A slot's length ahead lies in a later block.
later_block : (now i expiry : ℕ) → 0 < i → now + i ≤ expiry → now / i < expiry / i
later_block now i expiry p h = grind arith

Reached-le : (level diff : ℕ) → 0 < diff → Reached level diff → interval level ≤ diff
Reached-le level diff p (inl e) = rw e p
Reached-le level diff p (inr h) = h

-- `addTimerToWheel` puts a timer that is not yet due, and due within a turn of the top level, where
-- its slot comes up after `now` and not after the expiry.
pub slot_for-Placed :
    (levels now expiry : ℕ)
    → now < expiry
    → expiry < now + interval (levels - 1) * 256
    → let l = level_of levels now expiry in
      Placed now (interval l) (slot_for now expiry l) expiry × (l ≤ levels - 1)
unfolding slot_for
slot_for-Placed levels now expiry h near =
    let d = distance_ahead now expiry h in
    let l = level_of levels now expiry in
    let reached : interval l ≤ distance now expiry =
      Reached-le l _ (omega (arith, d)) (level_for-Reached (levels - 1) 0 _ (inl refl)) in
    let top : 0 + (levels - 1) ≡ levels - 1 = omega arith in
    let within =
      level_for_within (levels - 1) 0 (distance now expiry) (rw top (omega (arith, d))) in
    (
      (
        later_block now (interval l) expiry (interval-pos l) (omega (arith, d, reached)),
        omega (arith, d, within.0),
        ground (arith, d, mask_slots (expiry / interval l)),
      ),
      omega (arith, within.1),
    )

level_of_zero : (above diff : ℕ) → diff ≡ 0 → level_for above 0 diff ≡ 0
level_of_zero above diff e = elim (level_for-Reached above 0 diff (inl refl)) [
  | inl z ↦ z
  | inr h ↦ absurd (omega (arith, h, e, interval-pos (level_for above 0 diff)))
]

-- An overdue timer goes to the slot that comes up next.
pub slot_for-Overdue :
    (levels now expiry : ℕ)
    → expiry ≤ now
    → let l = level_of levels now expiry in Overdue now l (slot_for now expiry l) expiry
unfolding slot_for
slot_for-Overdue levels now expiry h =
    let d = distance_past now expiry h in
    (level_of_zero (levels - 1) (distance now expiry) d, ground (arith, d, mask_slots (now + 1)), h)
