-- ===== src/Buffer/Append.antt =====
-- DynamicBuffer.cpp: `append` against a list of bytes.
use mathlib.Core.Option
use uvent.Common.{
  ℕ, ◌+◌, ◌^◌, ◌≤◌, ◌<◌, ◌≡◌, ◌≢◌, refl, ap, ap₂, ◌∙◌, some, List, [], ◌∷◌, ◌++◌, length, ltb,
  Bool-cases, inl, inr, ltb→lt, if◌then◌else◌, arith,
}
use uvent.Common.Bits.{u64}
use uvent.Common.Memory.{update, update_self, update_ne}
use uvent.FastQueue.Window.{tabulate, tabulate_ext, tabulate-append}
use uvent.FastQueue.Refine.{pow_le}
use uvent.Buffer.{DynamicBuffer, copy_bytes, reserve_tail, commit, write, append}
use uvent.Buffer.Grow.{IsCapacity, IsValid, contents, reserve-HasRoom}

copy_bytes-before : (xs : List ℕ) (at : ℕ) (m : ℕ → ℕ) (j : ℕ) → j < at → copy_bytes xs at m j ≡ m j
unfolding copy_bytes
copy_bytes-before [] at m j h = refl
copy_bytes-before (x ∷ xs) at m j h =
    let differ : j ≢ at = λ e. absurd (omega (arith, e)) in
    copy_bytes-before xs (at + 1) (update m at x) j (omega arith) ∙ update_ne m x differ

copy_bytes-tabulate :
    (xs : List ℕ) (at : ℕ) (m : ℕ → ℕ) → tabulate (copy_bytes xs at m) at (length xs) ≡ xs
unfolding copy_bytes
copy_bytes-tabulate [] at m = refl
copy_bytes-tabulate (x ∷ xs) at m =
    ap₂ ◌∷◌ (copy_bytes-before xs (at + 1) (update m at x) at (omega arith) ∙ update_self m at x)
      (copy_bytes-tabulate xs (at + 1) (update m at x))

capacity_fits : (c : ℕ) → IsCapacity c → c ≤ 2 ^ 63
capacity_fits c (inl e) = omega (arith, e)
capacity_fits c (inr p) = omega (arith, p.1, pow_le p.0 63 p.2)

zero_plus : (n : ℕ) → 0 + n ≡ n
zero_plus n = omega arith

-- With room for them, the bytes are written behind those that are there.
write-contents :
    (src : List ℕ) (b : DynamicBuffer)
    → IsValid b
    → b.size + length src ≤ b.cap
    → IsValid (write src b) × (contents (write src b) ≡ contents b ++ src)
unfolding commit
write-contents src b v h =
    let f = copy_bytes src b.size b.data_at in
    let small = capacity_fits b.cap v.cap_is in
    let size : u64 (b.size + length src) ≡ b.size + length src = omega (arith, small, h) in
    let within : (if ltb b.cap (u64 (b.size + length src))
          then b.cap
          else u64 (b.size + length src))
        ≡ b.size + length src =
      elim (Bool-cases (ltb b.cap (u64 (b.size + length src)))) [
        | inl over ↦ absurd (omega (arith, ltb→lt b.cap (u64 (b.size + length src)) over, size, h))
        | inr fine ↦ rw (fine) size
      ] in
    let valid : IsValid (write src b) = record {
      cap_is = v.cap_is;
      fits = omega (arith, within, h);
    } in
    (
      valid,
      ap (tabulate f 0) within
          ∙ tabulate-append f 0 b.size (length src)
          ∙ ap₂ ◌++◌
              (tabulate_ext f b.data_at 0 b.size
                (λ j _ r. copy_bytes-before src b.size b.data_at j (omega (arith, r))))
              (ap (λ i. tabulate f i (length src)) (zero_plus b.size)
                ∙ copy_bytes-tabulate src b.size b.data_at),
    )

-- `append` on a valid buffer returns when the bytes before and the new ones are at most `2^63`; it
-- leaves a valid buffer that holds the bytes before, then the new ones.
pub append-contents :
    (raw : ℕ → ℕ) (b : DynamicBuffer) (src : List ℕ)
    → IsValid b
    → b.size + length src ≤ 2 ^ 63
    → (r : DynamicBuffer) × (append raw b src ≡ some r)
      × IsValid r
      × (contents r ≡ contents b ++ src)
unfolding append reserve_tail
append-contents raw b src v h =
    let need : u64 (b.size + length src) ≡ b.size + length src = omega (arith, h) in
    let g = reserve-HasRoom raw b (u64 (b.size + length src)) v (omega (arith, need, h)) in
    let w = write-contents src g.0 g.2 (omega (arith, g.3, g.4, need)) in
    (write src g.0, ap (Option.map (write src)) g.1, w.0, w.1 ∙ ap (λ l. l ++ src) g.5)
