-- ===== src/Spsc/Ring.antt =====
-- `SPSCQueue`: how the indices and the cells stand for a list, and what both sides know.
use Prim.Native.Nat.{bit_and}
use native.Mathlib.Nat.{mod-add-mod, zero-mod}
use uvent.Common.{
  ℕ, ◌+◌, ◌-◌, ◌%◌, ◌^◌, ◌≤◌, ◌<◌, ◌≡◌, ◌≢◌, refl, ap, ◌∙◌, arith, List, [], ◌∷◌, ◌++◌,
}
use uvent.Common.Bits.{u64}
use uvent.FastQueue.Window.{tabulate}
use uvent.FastQueue.Refine.{cells_ne, cell}
use uvent.Spsc.{SpscQueue}
use uvent.Spsc.Steps.{
  Producer, outside, has_room, has_built, Consumer, away, has_seen, has_moved, Ring,
}

pub append_one {ℓ} : {A : Type ℓ} (xs ys : List A) (x : A) → xs ++ x ∷ ys ≡ (xs ++ x ∷ []) ++ ys
append_one [] ys x = refl
append_one (z ∷ xs) ys x = ap (λ l. z ∷ l) (append_one xs ys x)

pub zero_mod : (k : ℕ) → 0 % 2 ^ k ≡ 0
zero_mod k = zero-mod (2 ^ k)

pub append_last {ℓ} :
    {A : Type ℓ} (xs ys : List A) (x : A) → (xs ++ ys) ++ x ∷ [] ≡ xs ++ (ys ++ x ∷ [])
append_last [] ys x = refl
append_last (z ∷ xs) ys x = ap (λ l. z ∷ l) (append_last xs ys x)

pub step_cell :
    (k : ℕ) → k ≤ 63 → (i m : ℕ) → m ≡ 2 ^ k - 1 → bit_and (u64 (i % 2 ^ k + 1)) m ≡ (i + 1) % 2 ^ k
step_cell k small i m e =
    ap (λ m. bit_and (u64 (i % 2 ^ k + 1)) m) e
    ∙ cell k (i % 2 ^ k + 1) small
    ∙ mod-add-mod i (2 ^ k) 1

-- The cell of the next element is none of those in the ring.
pub other_cell : (k h n j : ℕ) → h ≤ j → j < h + n → n < 2 ^ k → j % 2 ^ k ≢ (h + n) % 2 ^ k
other_cell k h n j a b c = cells_ne j (h + n) (2 ^ k) b (omega (arith, a, c))

-- The value at a position that counts on.
abbrev pub at : {A : Type 0} → ℕ → SpscQueue A → ℕ → A
at k q i = q.buf (i % 2 ^ k)

-- What the producer and the consumer know, when `n` elements are in the ring.
abbrev pub Knows : {A : Type 0} → ℕ → Producer A → SpscQueue A → ℕ → Type 0
Knows k outside q n = Unit
Knows k (has_room x) q n = n + 1 < 2 ^ k
Knows k (has_built x) q n = (n + 1 < 2 ^ k) × (q.buf q.tail ≡ x)

abbrev pub Reads : {A : Type 0} → Consumer A → SpscQueue A → ℕ → Type 0
Reads away q n = Unit
Reads has_seen q n = 1 ≤ n
Reads (has_moved x) q n = (1 ≤ n) × (q.buf q.head ≡ x)

-- The elements from position `first` on, `count` of them, are in the ring.
pub record IsRing {A : Type 0} (k : ℕ) (r : Ring A) : Type 0 where
  pub first : ℕ
  pub count : ℕ
  pub mask_is : r.queue.mask ≡ 2 ^ k - 1
  pub head_is : r.queue.head ≡ first % 2 ^ k
  pub tail_is : r.queue.tail ≡ (first + count) % 2 ^ k
  pub fits : count < 2 ^ k
  pub log : r.sent ≡ r.received ++ tabulate (at k r.queue) first count
  pub knows : Knows k r.producer r.queue count
  pub reads : Reads r.consumer r.queue count
