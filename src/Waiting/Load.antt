-- ===== src/Waiting/Load.antt =====
-- Wait.h: the numbers of coroutines that sleep and of those that will act.
use uvent.Common.{ℕ, suc, ◌+◌, ◌≤◌, ◌≡◌, refl, arith, List, [], ◌∷◌, ◌++◌, length}
use uvent.Waiting.{Stage, pushed, refused, arming, parked, Node, World}

-- A coroutine sleeps when `attach` has returned true, as it suspends without a further test.
abbrev pub sleeps : Stage → ℕ
sleeps pushed = 0
sleeps refused = 0
sleeps arming = 1
sleeps parked = 1

abbrev pub asleep : List Node → ℕ
asleep [] = 0
asleep (n ∷ ns) = sleeps n.stage + asleep ns

abbrev pub sum : List ℕ → ℕ
sum [] = 0
sum (k ∷ ks) = k + sum ks

-- Sleeping coroutines, woken ones, wake-ups that are still due, and sweeps.
pub record Load : Type 0 where
  pub sleeping : ℕ
  pub woken : ℕ
  pub due : ℕ
  pub sweeps : ℕ

abbrev pub load : {S : Type 0} → World S → Load
load w = record {
  sleeping = asleep w.nodes;
  woken = length w.woken;
  due = sum w.budgets;
  sweeps = w.sweeps;
}

pub sleeps-bound : (t : Stage) → sleeps t ≤ 1
sleeps-bound pushed = omega arith
sleeps-bound refused = omega arith
sleeps-bound arming = omega arith
sleeps-bound parked = omega arith

pub asleep-mid :
    (before after : List Node) (n : Node)
    → asleep (before ++ n ∷ after) ≡ sleeps n.stage + asleep (before ++ after)
asleep-mid [] after n = refl
asleep-mid (x ∷ before) after n = omega (arith, asleep-mid before after n)

pub length-mid :
    (before after : List ℕ) (k : ℕ) → length (before ++ k ∷ after) ≡ suc (length (before ++ after))
length-mid [] after k = refl
length-mid (x ∷ before) after k = omega (arith, length-mid before after k)

pub sum-mid :
    (before after : List ℕ) (k : ℕ) → sum (before ++ k ∷ after) ≡ k + sum (before ++ after)
sum-mid [] after k = refl
sum-mid (x ∷ before) after k = omega (arith, sum-mid before after k)

pub asleep-push :
    (ns : List Node) (f : ℕ) → asleep (ns ++ record { frame = f; stage = pushed } ∷ []) ≡ asleep ns
asleep-push [] f = refl
asleep-push (n ∷ ns) f = omega (arith, asleep-push ns f)
