-- ===== src/Mpmc/Claims.antt =====
-- `MPMCQueue`: when the exchange of a consumer is right.
use native.Mathlib.Nat.{mod-eq_of_lt, add-mul-mod_self_right}
use uvent.Common.{
  ℕ, ◌+◌, ◌-◌, ◌*◌, ◌%◌, ◌≤◌, ◌<◌, ◌≡◌, sym, ap, ◌∙◌, arith, inl, inr, ℕ-cases, below_or_above,
}
use uvent.Mpmc.Steps.{Life, full}
use uvent.Mpmc.Cells.{rank, number, number_low, number_early, filled, number_bound}
use uvent.Mpmc.Shared.{IsShared, held, in_use}

module _ {A : Type 0} (m e d : ℕ) (seq : ℕ → ℕ) (storage : ℕ → A) (life : ℕ → Life) (value : ℕ → A)
    (two : 2 ≤ m) (v : IsShared m e d seq storage life value) where
  -- The number of the cell at the end is at most the end.
  pub end_number : seq (e % m) ≤ e
  end_number = elim (below_or_above e m) [
    | inl less ↦ omega (arith, ap seq (mod-eq_of_lt less), v.initial e (omega arith) less)
    | inr more ↦
        let i = e - m in
        let turned : e ≡ i + 1 * m = omega (arith, more) in
        let same_cell : e % m ≡ i % m = ap (λ x. x % m) turned ∙ add-mul-mod_self_right i 1 m in
        omega (
          arith,
          ap seq same_cell,
          v.numbers i (omega (arith, more, two)) (omega (arith, more)),
          number_bound m i (life i) (omega (arith, two)),
          more,
        )
  ]

  -- A number one ahead of the first position shows that its element is there.
  pub deq_ready : seq (d % m) ≡ d + 1 → life d ≡ full
  deq_ready ready =
      let bounds = held m e d seq storage life value two v in
      elim (ℕ-cases d e) [
        | inl z ↦ absurd (omega (arith, ready, z, ap (λ j. seq (j % m)) z, end_number))
        | inr z ↦
            let before : d < e = omega (arith, z, bounds.0) in
            filled m d (life d) two (v.enqueued d before) (v.waiting d (omega arith))
              (sym (v.numbers d before bounds.1) ∙ ready)
      ]

  -- The number of the cell at the front is at most a capacity ahead of the end.
  pub front_number : seq (d % m) ≤ e + m
  front_number =
      let bounds = held m e d seq storage life value two v in
      elim (ℕ-cases d e) [
        | inl z ↦ omega (arith, ap (λ j. seq (j % m)) z, end_number)
        | inr z ↦
            let before : d < e = omega (arith, z, bounds.0) in
            omega (
              arith,
              v.numbers d before bounds.1,
              number_bound m d (life d) (omega (arith, two)),
              before,
            )
      ]

  end_number_low : e ≤ seq (e % m) + m
  end_number_low = elim (below_or_above e m) [
    | inl less ↦ omega (arith, less)
    | inr more ↦
        let i = e - m in
        let turned : e ≡ i + 1 * m = omega (arith, more) in
        let same_cell : e % m ≡ i % m = ap (λ x. x % m) turned ∙ add-mul-mod_self_right i 1 m in
        omega (
          arith,
          ap seq same_cell,
          v.numbers i (omega (arith, more, two)) (omega (arith, more)),
          number_low m i (life i),
          more,
        )
  ]

  -- The number of the cell at the front is at most one ahead of it, and no more than a capacity behind.
  pub front_near : (seq (d % m) ≤ d + 1) × (d ≤ seq (d % m) + m)
  front_near =
      let bounds = held m e d seq storage life value two v in
      elim (ℕ-cases d e) [
        | inl z ↦
            let same : seq (d % m) ≡ seq (e % m) = ap (λ j. seq (j % m)) z in
            (omega (arith, same, z, end_number), omega (arith, same, z, end_number_low))
        | inr z ↦
            let before : d < e = omega (arith, z, bounds.0) in
            let here : seq (d % m) ≡ number m (life d) d = v.numbers d before bounds.1 in
            (
              omega (arith, here, number_early m d (life d) (v.waiting d (omega arith))),
              omega (arith, here, number_low m d (life d)),
            )
      ]

  pub full_number : life d ≡ full → seq (d % m) ≡ d + 1
  full_number is_full =
      let bounds = held m e d seq storage life value two v in
      let here =
        in_use m e d seq storage life value two v d (omega (arith, ap rank is_full))
          (omega (arith, ap rank is_full)) in
      v.numbers d here.0 here.1 ∙ ap (λ l. number m l d) is_full
