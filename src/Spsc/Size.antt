-- ===== src/Spsc/Size.antt =====
-- `SPSCQueue`: what `size_relaxed` counts.
use Prim.Native.Nat.{bit_and}
use native.Mathlib.Nat.{mod-add-mod, mod-lt, mod-eq_of_lt, add-mul-mod_self_right}
use uvent.Common.{
  ℕ, zero, suc, ◌+◌, ◌-◌, ◌*◌, ◌%◌, ◌^◌, ◌≤◌, ◌<◌, ◌≡◌, sym, ap, ◌∙◌, arith, length, length-append,
  inl, inr, below_or_above,
}
use uvent.Common.Bits.{u64, pow-pos}
use uvent.FastQueue.Window.{tabulate, length-tabulate, pow_add}
use uvent.FastQueue.Refine.{cell}
use uvent.FastQueue.Copy.{end_inside, end_around}
use uvent.Spsc.{new_queue, size_relaxed}
use uvent.Spsc.Steps.{Ring, Runs, start}
use uvent.Spsc.Ring.{at}
use uvent.Spsc.Fifo.{reachable-IsRing}

less_one : (x m : ℕ) → 0 < x → (x - 1) * m + m ≡ x * m
less_one zero m h = absurd (omega (arith, h))
less_one (suc x) m h = grind arith

-- `2^64` is a positive multiple of a capacity.
whole_turns : (k : ℕ) → k ≤ 63 → 2 ^ 64 ≡ (2 ^ (64 - k) - 1) * 2 ^ k + 2 ^ k
whole_turns k small =
    let parts : 64 - k + k ≡ 64 = omega arith in
    let product : 2 ^ 64 ≡ 2 ^ (64 - k) * 2 ^ k =
      ap (λ n. 2 ^ n) (sym parts) ∙ pow_add (64 - k) k in
    product ∙ sym (less_one (2 ^ (64 - k)) (2 ^ k) (pow-pos (64 - k)))

-- From one cell to another, through `2^64`.
cell_distance :
    (k h n : ℕ)
    → k ≤ 63
    → n < 2 ^ k
    → bit_and (u64 ((h + n) % 2 ^ k + 2 ^ 64 - h % 2 ^ k)) (2 ^ k - 1) ≡ n
cell_distance k h n small p =
    let m = 2 ^ k in
    let a = h % m in
    let inside : a < m = mod-lt h (pow-pos k) in
    let c = 2 ^ (64 - k) - 1 in
    let last : (h + n) % m ≡ (a + n) % m = sym (mod-add-mod h m n) in
    let turns = whole_turns k small in
    cell k ((h + n) % m + 2 ^ 64 - a) small ∙ elim (below_or_above (a + n) m) [
      | inl below ↦
          let far : (h + n) % m + 2 ^ 64 - a ≡ n + m + c * m =
            omega (arith, last, end_inside m a n below, turns) in
          let one : n + m ≡ n + 1 * m = omega arith in
          ap (λ x. x % m) far
          ∙ add-mul-mod_self_right (n + m) c m
          ∙ ap (λ x. x % m) one
          ∙ add-mul-mod_self_right n 1 m
          ∙ mod-eq_of_lt p
      | inr above ↦
          let far : (h + n) % m + 2 ^ 64 - a ≡ n + c * m =
            omega (arith, last, end_around m a n inside (omega (arith, p)) above, turns, inside) in
          ap (λ x. x % m) far ∙ add-mul-mod_self_right n c m ∙ mod-eq_of_lt p
    ]

-- In every state that producer and consumer reach, `size_relaxed` of both indices is the number of
-- elements that were sent and not yet received, for a queue made for `2^k` elements, k at most 63.
pub sent-size_relaxed :
    {A : Type 0} {raw : ℕ → A} {r : Ring A} (k : ℕ)
    → k ≤ 63
    → Runs (start (new_queue k raw)) r
    → length r.sent ≡ length r.received + size_relaxed r.queue
unfolding size_relaxed
sent-size_relaxed {A} {raw} {r} k small s =
    let v = reachable-IsRing k small s in
    let size_is : size_relaxed r.queue ≡ v.count =
      ap (λ m. bit_and (u64 (r.queue.tail + 2 ^ 64 - r.queue.head)) m) v.mask_is
      ∙ ap (λ t. bit_and (u64 (t + 2 ^ 64 - r.queue.head)) (2 ^ k - 1)) v.tail_is
      ∙ ap (λ h. bit_and (u64 ((v.first + v.count) % 2 ^ k + 2 ^ 64 - h)) (2 ^ k - 1)) v.head_is
      ∙ cell_distance k v.first v.count small v.fits in
    ap length v.log
    ∙ length-append r.received (tabulate (at k r.queue) v.first v.count)
    ∙ ap (λ n. length r.received + n) (length-tabulate (at k r.queue) v.first v.count ∙ sym size_is)
