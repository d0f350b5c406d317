-- ===== src/Mpmc/Threads.antt =====
-- `MPMCQueue`: what each thread knows, and that the others leave it so.
use uvent.Common.{ℕ, ◌+◌, ◌%◌, ◌≤◌, ◌≡◌, ◌≢◌, sym, ap, ◌∙◌, arith, inl, inr, ℕ-cases}
use uvent.Common.Memory.{update, update_ne}
use uvent.Mpmc.Steps.{
  Thread, outside, enq_at, enq_free, building, built, deq_at, deq_full, taking, moved, Life, fresh,
  full, gone, writing, reading,
}
use uvent.Mpmc.Cells.{apart, rank, number}
use uvent.Mpmc.Shared.{IsShared, in_use, ready_past, other_cell}

-- What the thread `t` knows of the queue. A position that it has loaded may be late.
abbrev pub Knows :
    {A : Type 0} → ℕ → ℕ → ℕ → (ℕ → ℕ) → (ℕ → A) → (ℕ → Life) → (ℕ → A) → ℕ → Thread A → Type 0
Knows m e d seq storage life value t outside = Unit
Knows m e d seq storage life value t (enq_at pos x) = pos ≤ e
Knows m e d seq storage life value t (enq_free pos x) = (pos ≤ e) × (pos ≡ e → seq (pos % m) ≡ pos)
Knows m e d seq storage life value t (building pos x) = (life pos ≡ writing t) × (value pos ≡ x)
Knows m e d seq storage life value t (built pos x) =
    (life pos ≡ writing t) × (value pos ≡ x) × (storage (pos % m) ≡ x)
Knows m e d seq storage life value t (deq_at pos) = pos ≤ d
Knows m e d seq storage life value t (deq_full pos) = (pos ≤ d) × (pos ≡ d → life pos ≡ full)
Knows m e d seq storage life value t (taking pos) = life pos ≡ reading t
Knows m e d seq storage life value t (moved pos x) = (life pos ≡ reading t) × (x ≡ value pos)

abbrev pub owner : Life → ℕ
owner (writing t) = t
owner (reading t) = t
owner fresh = 0
owner full = 0
owner gone = 0

module _ {A : Type 0} (m e d : ℕ) (seq : ℕ → ℕ) (storage : ℕ → A) (life : ℕ → Life) (value : ℕ → A)
    (two : 2 ≤ m) (v : IsShared m e d seq storage life value) where
  -- A position with another life than the one changed keeps its life.
  kept_life : (j : ℕ) (l a : Life) (i : ℕ) → life i ≡ a → life j ≢ a → update life j l i ≡ a
  kept_life j l a i h differ = update_ne life l (λ z. differ (ap life (sym z) ∙ h)) ∙ h

  unlike : (j : ℕ) (a : Life) → rank (life j) ≢ rank a → life j ≢ a
  unlike j a differ z = differ (ap rank z)

  -- An element that is being written or read is not the one of the position that changes.
  kept_value : (j : ℕ) (x : A) (i : ℕ) → life i ≢ life j → update value j x i ≡ value i
  kept_value j x i differ = update_ne value x (λ z. differ (ap life z))

  module _ (t : ℕ) (x : A) (s : ℕ) where
    end_fresh : life e ≡ fresh
    end_fresh = v.unused e (omega arith)

    not_end : (a : Life) → 1 ≤ rank a → life e ≢ a
    not_end a h z = absurd (omega (arith, h, ap rank z, ap rank end_fresh))

    off_end : (i : ℕ) (a : Life) → 1 ≤ rank a → life i ≡ a → life i ≢ life e
    off_end i a h z same = not_end a h (sym same ∙ z)

    pub Knows-enq :
        (p : Thread A)
        → Knows m e d seq storage life value s p
        → Knows m (e + 1) d seq storage (update life e (writing t)) (update value e x) s p
    Knows-enq outside k = tt
    Knows-enq (enq_at pos y) k = omega (arith, k)
    Knows-enq (enq_free pos y) k = (omega (arith, k.0), λ z. absurd (omega (arith, z, k.0)))
    Knows-enq (building pos y) k = (
      kept_life e (writing t) (writing s) pos k.0 (not_end (writing s) (omega arith)),
      kept_value e x pos (off_end pos (writing s) (omega arith) k.0) ∙ k.1,
    )
    Knows-enq (built pos y) k = (
      kept_life e (writing t) (writing s) pos k.0 (not_end (writing s) (omega arith)),
      kept_value e x pos (off_end pos (writing s) (omega arith) k.0) ∙ k.1,
      k.2,
    )
    Knows-enq (deq_at pos) k = k
    Knows-enq (deq_full pos) k =
        (k.0, λ z. kept_life e (writing t) full pos (k.1 z) (not_end full (omega arith)))
    Knows-enq (taking pos) k =
        kept_life e (writing t) (reading s) pos k (not_end (reading s) (omega arith))
    Knows-enq (moved pos y) k = (
      kept_life e (writing t) (reading s) pos k.0 (not_end (reading s) (omega arith)),
      k.1 ∙ sym (kept_value e x pos (off_end pos (reading s) (omega arith) k.0)),
    )

  module _ (t s : ℕ) (is_full : life d ≡ full) where
    not_front : (a : Life) → rank a ≢ 2 → life d ≢ a
    not_front a h z = h (ap rank (sym z ∙ is_full))

    pub Knows-deq :
        (p : Thread A)
        → Knows m e d seq storage life value s p
        → Knows m e (d + 1) seq storage (update life d (reading t)) value s p
    Knows-deq outside k = tt
    Knows-deq (enq_at pos y) k = k
    Knows-deq (enq_free pos y) k = k
    Knows-deq (building pos y) k = (
      kept_life d (reading t) (writing s) pos k.0 (not_front (writing s) (λ z. omega (arith, z))),
      k.1,
    )
    Knows-deq (built pos y) k = (
      kept_life d (reading t) (writing s) pos k.0 (not_front (writing s) (λ z. omega (arith, z))),
      k.1,
      k.2,
    )
    Knows-deq (deq_at pos) k = omega (arith, k)
    Knows-deq (deq_full pos) k = (omega (arith, k.0), λ z. absurd (omega (arith, z, k.0)))
    Knows-deq (taking pos) k =
        kept_life d (reading t) (reading s) pos k (not_front (reading s) (λ z. omega (arith, z)))
    Knows-deq (moved pos y) k = (
      kept_life d (reading t) (reading s) pos k.0 (not_front (reading s) (λ z. omega (arith, z))),
      k.1,
    )

  -- A thread `s` other than the owner of the position `j`.
  module _ (j s : ℕ) (out : 1 ≤ rank (life j)) (held_out : rank (life j) ≤ 3)
      (not_full : life j ≢ full) (theirs : owner (life j) ≢ s) where
    not_writing : life j ≢ writing s
    not_writing z = theirs (ap owner z)

    not_reading : life j ≢ reading s
    not_reading z = theirs (ap owner z)

    -- If the cell at the end is ready, it is not the owner's.
    free_cell : seq (e % m) ≡ e → e % m ≢ j % m
    free_cell ready =
        let window = in_use m e d seq storage life value two v j out held_out in
        elim (ℕ-cases (j + m) e) [
          | inl turn ↦
              absurd (
                omega (arith, held_out, ready_past m e d seq storage life value two v ready j turn))
          | inr off ↦
              apart m e j (λ z. omega (arith, z, window.0)) (omega (arith, off, window.1))
                (omega (arith, window.0))
        ]

    pub Knows-store :
        (l : Life) (p : Thread A)
        → Knows m e d seq storage life value s p
        → Knows m e d (update seq (j % m) (number m l j)) storage (update life j l) value s p
    Knows-store l outside k = tt
    Knows-store l (enq_at pos y) k = k
    Knows-store l (enq_free pos y) k = (
      k.0,
      λ z.
          let ready : seq (e % m) ≡ e = ap (λ i. seq (i % m)) (sym z) ∙ k.1 z ∙ z in
          update_ne seq (number m l j) (λ c. free_cell ready (ap (λ i. i % m) (sym z) ∙ c)) ∙ k.1 z,
    )
    Knows-store l (building pos y) k = (kept_life j l (writing s) pos k.0 not_writing, k.1)
    Knows-store l (built pos y) k = (kept_life j l (writing s) pos k.0 not_writing, k.1, k.2)
    Knows-store l (deq_at pos) k = k
    Knows-store l (deq_full pos) k = (k.0, λ z. kept_life j l full pos (k.1 z) not_full)
    Knows-store l (taking pos) k = kept_life j l (reading s) pos k not_reading
    Knows-store l (moved pos y) k = (kept_life j l (reading s) pos k.0 not_reading, k.1)

    pub Knows-build :
        (x : A) (p : Thread A)
        → Knows m e d seq storage life value s p
        → Knows m e d seq (update storage (j % m) x) life value s p
    Knows-build x outside k = tt
    Knows-build x (enq_at pos y) k = k
    Knows-build x (enq_free pos y) k = k
    Knows-build x (building pos y) k = k
    Knows-build x (built pos y) k =
        let here =
          in_use m e d seq storage life value two v pos (omega (arith, ap rank k.0))
            (omega (arith, ap rank k.0)) in
        let differ : pos ≢ j = λ z. not_writing (ap life (sym z) ∙ k.0) in
        (
          k.0,
          k.1,
          update_ne storage x (
                other_cell m e d seq storage life value two v j out held_out pos differ here.0
                  here.1)
              ∙ k.2,
        )
    Knows-build x (deq_at pos) k = k
    Knows-build x (deq_full pos) k = k
    Knows-build x (taking pos) k = k
    Knows-build x (moved pos y) k = k
