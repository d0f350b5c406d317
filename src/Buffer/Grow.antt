-- ===== src/Buffer/Grow.antt =====
-- DynamicBuffer.cpp: the capacity that `grow_` finds, and what it keeps.
use native.Mathlib.Nat.{pow-suc}
use uvent.Common.{
  ℕ, zero, suc, ◌+◌, ◌*◌, ◌^◌, ◌≤◌, ◌<◌, ◌≡◌, ◌⊎◌, inl, inr, refl, ap, true, false, some, List, ltb,
  ltb→lt, lt→ltb, ltb-false→le, Bool-cases, ℕ-cases, ==_iff, ◌==◌, if◌then◌else◌, arith,
}
use mathlib.Core.Option
use uvent.Common.Bits.{u64, pow-pos}
use uvent.FastQueue.Window.{tabulate, tabulate_ext}
use uvent.FastQueue.Refine.{pow_le}
use uvent.Buffer.{DynamicBuffer, double_until, grow, reserve, moved, copy_front}

-- No memory, or a power of two.
abbrev pub IsCapacity : ℕ → Type 0
IsCapacity c = (c ≡ 0) ⊎ ((k : ℕ) × (c ≡ 2 ^ k) × (k ≤ 63))

pub record IsValid (b : DynamicBuffer) : Type 0 where
  pub cap_is : IsCapacity b.cap
  pub fits : b.size ≤ b.cap

-- The bytes that the buffer holds.
abbrev pub contents : DynamicBuffer → List ℕ
contents b = tabulate b.data_at 0 b.size

double_until-IsEnough :
    (fuel need k c : ℕ)
    → c ≡ 2 ^ k
    → k ≤ 63
    → need ≤ 2 ^ 63
    → 64 < fuel + k
    → (d : ℕ) × (double_until fuel need c ≡ some d) × IsCapacity d × (need ≤ d) × (c ≤ d)
unfolding double_until
double_until-IsEnough zero need k c e s n f = absurd (omega arith)
double_until-IsEnough (suc fuel) need k c e s n f = elim (Bool-cases (ltb c need)) [
  | inl less ↦ elim (ℕ-cases k 63) [
    | inl last ↦
        let whole : 2 ^ k ≡ 2 ^ 63 = ap (λ j. 2 ^ j) last in
        absurd (omega (arith, whole, ltb→lt c need less, e))
    | inr d ↦
        let below : k ≤ 62 = omega (arith, s, d) in
        let doubled : u64 (c * 2) ≡ 2 ^ suc k = omega (arith, e, pow-suc 2 k, pow_le k 62 below) in
        let rest =
          double_until-IsEnough fuel need (suc k) (u64 (c * 2)) doubled (omega (arith, below)) n
            (omega arith) in
        (rest.0, rw (less) rest.1, rest.2, rest.3, omega (arith, rest.4, doubled, e, pow-suc 2 k))
  ]
  | inr enough ↦ (c, rw (enough) refl, inr (k, e, s), ltb-false→le c need enough, omega arith)
]

-- The capacity that the doubling begins with.
first_capacity :
    (c : ℕ) → IsCapacity c → (k : ℕ) × ((if c == 0 then 4096 else c) ≡ 2 ^ k) × (k ≤ 63)
first_capacity c (inl z) =
    let none_yet : (c == 0) ≡ true = (==_iff c 0).1 z in (12, rw (none_yet) refl, omega arith)
first_capacity c (inr p) =
    let there : (c == 0) ≡ false = ground (arith, p.1, pow-pos p.0) in (p.0, rw (there) p.1, p.2)

moved-contents :
    (raw : ℕ → ℕ) (b : DynamicBuffer) (cap : ℕ) → contents (moved raw b cap) ≡ contents b
moved-contents raw b cap =
    tabulate_ext (copy_front b.size b.data_at raw) b.data_at 0 b.size
      (λ j _ r. ap (λ t. if t then b.data_at j else raw j) (lt→ltb j b.size (omega (arith, r))))

-- `reserve` of at most `2^63` bytes on a valid buffer returns, makes that room and keeps the bytes.
pub reserve-HasRoom :
    (raw : ℕ → ℕ) (b : DynamicBuffer) (n : ℕ)
    → IsValid b
    → n ≤ 2 ^ 63
    → (r : DynamicBuffer) × (reserve raw b n ≡ some r)
      × IsValid r
      × (n ≤ r.cap)
      × (r.size ≡ b.size)
      × (contents r ≡ contents b)
unfolding reserve grow
reserve-HasRoom raw b n v h = elim (Bool-cases (ltb b.cap n)) [
  | inl less ↦
      let first = first_capacity b.cap v.cap_is in
      let c = if b.cap == 0 then 4096 else b.cap in
      let e = double_until-IsEnough 65 n first.0 c first.1 first.2 h (omega arith) in
      let r = moved raw b e.0 in
      let valid : IsValid r = record {
        cap_is = e.2;
        fits = omega (arith, v.fits, ltb→lt b.cap n less, e.3);
      } in
      (r, rw (less) (ap (Option.map (moved raw b)) e.1), valid, e.3, refl, moved-contents raw b e.0)
  | inr enough ↦ (b, rw (enough) refl, v, ltb-false→le b.cap n enough, refl, refl)
]
