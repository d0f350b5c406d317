-- ===== src/Mpmc/Cells.antt =====
-- `MPMCQueue`: cells of positions, and what the lives of the positions say of the numbers.
use uvent.Common.{
  ℕ, ◌+◌, ◌-◌, ◌%◌, ◌^◌, ◌≤◌, ◌<◌, ◌≡◌, ◌≢◌, refl, sym, arith, Bool, true, false, Bool-cases, inl,
  inr, below_or_above, leb, ==_iff, ◌==◌, if◌then◌else◌,
}
use uvent.Common.Bits.{u64}
use uvent.FastQueue.Refine.{cells_ne}
use uvent.Mpmc.{Sign, dif}
use uvent.Mpmc.Steps.{Life, fresh, full, gone, writing, reading}

-- Different positions less than a capacity apart have different cells.
pub apart : (m i j : ℕ) → i ≢ j → i < j + m → j < i + m → i % m ≢ j % m
apart m i j d p q = elim (below_or_above i j) [
  | inl less ↦ cells_ne i j m less q
  | inr more ↦ λ e. cells_ne j i m (omega (arith, more, d)) p (sym e)
]

pub dif-eq : (s p : ℕ) → s < 2 ^ 64 → p < 2 ^ 64 → dif s p ≡ Sign.none → s ≡ p
unfolding dif
dif-eq s p h k e = elim (Bool-cases (u64 (s + 2 ^ 64 - p) == 0)) [
  | inl z ↦ omega (arith, (==_iff (u64 (s + 2 ^ 64 - p)) 0).0 z, h, k)
  | inr z ↦ absurd (sign_set (leb (2 ^ 63) (u64 (s + 2 ^ 64 - p))) (rw (z) at e))
]
  where
    sign_set : (b : Bool) → (if b then Sign.negative else Sign.positive) ≡ Sign.none → ⊥
    sign_set true e = cc
    sign_set false e = cc

-- How far a position has come.
abbrev pub rank : Life → ℕ
rank fresh = 0
rank (writing t) = 1
rank full = 2
rank (reading t) = 3
rank gone = 4

-- The number of the cell of a position `i` that was handed out, for a capacity `m`.
abbrev pub number : ℕ → Life → ℕ → ℕ
number m fresh i = i
number m (writing t) i = i
number m full i = i + 1
number m (reading t) i = i + 1
number m gone i = i + m

-- With two cells or more, a cell that is ready for the next turn was given back.
pub given_back : (m i : ℕ) (l : Life) → 2 ≤ m → 1 ≤ rank l → number m l i ≡ i + m → rank l ≡ 4
given_back m i fresh h r e = absurd (omega (arith, r))
given_back m i (writing t) h r e = absurd (omega (arith, h, e))
given_back m i full h r e = absurd (omega (arith, h, e))
given_back m i (reading t) h r e = absurd (omega (arith, h, e))
given_back m i gone h r e = refl

-- A cell whose number is one ahead of its position has an element, if no consumer has the position.
pub filled :
    (m i : ℕ) (l : Life) → 2 ≤ m → 1 ≤ rank l → rank l < 3 → number m l i ≡ i + 1 → l ≡ full
filled m i fresh h r s e = absurd (omega (arith, r))
filled m i (writing t) h r s e = absurd (omega (arith, e))
filled m i full h r s e = refl
filled m i (reading t) h r s e = absurd (omega (arith, s))
filled m i gone h r s e = absurd (omega (arith, s))

-- No number of a position handed out a turn before is one ahead of the present one.
pub number_bound : (m i : ℕ) (l : Life) → 1 ≤ m → number m l i ≤ i + m
number_bound m i fresh h = omega (arith, h)
number_bound m i (writing t) h = omega (arith, h)
number_bound m i full h = omega (arith, h)
number_bound m i (reading t) h = omega (arith, h)
number_bound m i gone h = omega (arith, h)

pub number_low : (m i : ℕ) (l : Life) → i ≤ number m l i
number_low m i fresh = omega arith
number_low m i (writing t) = omega arith
number_low m i full = omega arith
number_low m i (reading t) = omega arith
number_low m i gone = omega arith

-- Before a consumer has the position, the number is at most one ahead.
pub number_early : (m i : ℕ) (l : Life) → rank l < 3 → number m l i ≤ i + 1
number_early m i fresh h = omega arith
number_early m i (writing t) h = omega arith
number_early m i full h = omega arith
number_early m i (reading t) h = absurd (omega (arith, h))
number_early m i gone h = absurd (omega (arith, h))
