-- ===== src/Common/Memory.antt =====
-- Arrays and maps as functions from an index, and the write that changes one place.
use Prim.Native.Nat.{ℕ}
use mathlib.Core.Path.{◌≡◌, sym, ap, subst, ◌∙◌}
use mathlib.Core.Logic.{◌≢◌, inl, inr}
use native.Mathlib.Omega.{arith}
use uvent.Common.Tests.{◌==◌, if◌then◌else◌, ℕ-cases}

module _ {ℓ} {A : Type ℓ} where
  abbrev pub update : (ℕ → A) → ℕ → A → ℕ → A
  update f i a j = if j == i then a else f j

  pub update_self : (f : ℕ → A) (i : ℕ) (a : A) → update f i a i ≡ a
  update_self f i a = ground arith

  pub update_ne : (f : ℕ → A) {i j : ℕ} (a : A) → j ≢ i → update f i a j ≡ f j
  update_ne f a h = ground arith

-- What holds of a function after one write, by whether the place is the one written.
pub update_cases {ℓ κ} :
    {A : Type ℓ} (P : A → Type κ) (f : ℕ → A) (j : ℕ) (a : A) (i : ℕ)
    → (i ≡ j → P a)
    → (i ≢ j → P (f i))
    → P (update f j a i)
update_cases P f j a i same other = elim (ℕ-cases i j) [
  | inl e ↦ subst P (sym (ap (update f j a) e ∙ update_self f j a)) (same e)
  | inr d ↦ subst P (sym (update_ne f a d)) (other d)
]
