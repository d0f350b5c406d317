-- ===== src/Mpmc/Shared.antt =====
-- `MPMCQueue`: what the positions, the cells and the lives of the positions satisfy between accesses.
use native.Mathlib.Nat.{mod-eq_of_lt, add-mul-mod_self_right}
use uvent.Common.{
  ℕ, ◌+◌, ◌*◌, ◌%◌, ◌≤◌, ◌<◌, ◌≡◌, ◌≢◌, sym, ap, subst, ◌∙◌, arith, inl, inr, ℕ-cases,
  below_or_above,
}
use uvent.Common.Memory.{update_cases, update, update_self, update_ne}
use uvent.Mpmc.Steps.{Life, fresh, full, writing, reading}
use uvent.Mpmc.Cells.{apart, rank, number, given_back}

-- The positions before `e` were handed to producers, those before `d` to consumers; `m` is the capacity.
pub record IsShared {A : Type 0} (m e d : ℕ) (seq : ℕ → ℕ) (storage : ℕ → A) (life : ℕ → Life)
    (value : ℕ → A) : Type 0 where
  pub enqueued : (i : ℕ) → i < e → 1 ≤ rank (life i)
  pub unused : (i : ℕ) → e ≤ i → life i ≡ fresh
  pub dequeued : (i : ℕ) → i < d → 3 ≤ rank (life i)
  pub waiting : (i : ℕ) → d ≤ i → rank (life i) < 3
  pub past : (i : ℕ) → i + m < e → rank (life i) ≡ 4
  pub numbers : (i : ℕ) → i < e → e ≤ i + m → seq (i % m) ≡ number m (life i) i
  pub initial : (i : ℕ) → e ≤ i → i < m → seq i ≡ i
  pub kept : (i : ℕ) → 2 ≤ rank (life i) → rank (life i) ≤ 3 → storage (i % m) ≡ value i

module _ {A : Type 0} (m e d : ℕ) (seq : ℕ → ℕ) (storage : ℕ → A) (life : ℕ → Life) (value : ℕ → A)
    (two : 2 ≤ m) (v : IsShared m e d seq storage life value) where
  -- A position that was handed out and not given back is less than a capacity from the end.
  pub in_use : (i : ℕ) → 1 ≤ rank (life i) → rank (life i) ≤ 3 → (i < e) × (e ≤ i + m)
  in_use i p q = (
    elim (below_or_above i e) [
      | inl less ↦ less
      | inr more ↦ absurd (omega (arith, p, ap rank (v.unused i more)))
    ],
    elim (below_or_above (i + m) e) [
      | inl less ↦ absurd (omega (arith, q, v.past i less))
      | inr more ↦ more
    ],
  )

  -- The queue never holds more than its capacity.
  pub held : (d ≤ e) × (e ≤ d + m)
  held = (
    elim (below_or_above e d) [
      | inl less ↦ absurd (omega (arith, ap rank (v.unused e (omega arith)), v.dequeued e less))
      | inr more ↦ more
    ],
    elim (below_or_above (d + m) e) [
      | inl less ↦ absurd (omega (arith, v.past d less, v.waiting d (omega arith)))
      | inr more ↦ more
    ],
  )

  -- If the cell at the end is ready, the position a turn before was given back.
  pub ready_past : seq (e % m) ≡ e → (i : ℕ) → i + m ≡ e → rank (life i) ≡ 4
  ready_past ready i turn =
      let turned : e ≡ i + 1 * m = omega (arith, turn) in
      let same_cell : e % m ≡ i % m = ap (λ x. x % m) turned ∙ add-mul-mod_self_right i 1 m in
      let here : seq (i % m) ≡ number m (life i) i =
        v.numbers i (omega (arith, turn, two)) (omega (arith, turn)) in
      given_back m i (life i) two (v.enqueued i (omega (arith, turn, two)))
        (sym here ∙ ap seq (sym same_cell) ∙ ready ∙ sym turn)

  -- A producer takes the next position.
  pub enq-IsShared :
      (t : ℕ) (x : A)
      → seq (e % m) ≡ e
      → IsShared m (e + 1) d seq storage (update life e (writing t)) (update value e x)
  enq-IsShared t x ready = record {
    enqueued = λ i p.
        update_cases (λ l. 1 ≤ rank l) life e (writing t) i (λ z. omega arith)
          (λ z. v.enqueued i (omega (arith, p, z)));
    unused = λ i p.
        update_cases (λ l. l ≡ fresh) life e (writing t) i (λ z. absurd (omega (arith, p, z)))
          (λ z. v.unused i (omega (arith, p)));
    dequeued = λ i p.
        update_cases (λ l. 3 ≤ rank l) life e (writing t) i
          (λ z. absurd (omega (arith, p, z, held.0))) (λ z. v.dequeued i p);
    waiting = λ i p.
        update_cases (λ l. rank l < 3) life e (writing t) i (λ z. omega arith) (λ z. v.waiting i p);
    past = λ i p.
        update_cases (λ l. rank l ≡ 4) life e (writing t) i (λ z. absurd (omega (arith, p, z, two)))
          (λ z. elim (ℕ-cases (i + m) e) [
            | inl turn ↦ ready_past ready i turn
            | inr less ↦ v.past i (omega (arith, p, less))
          ]);
    numbers = λ i p q.
        update_cases (λ l. seq (i % m) ≡ number m l i) life e (writing t) i
          (λ z. ap (λ j. seq (j % m)) z ∙ ready ∙ sym z)
          (λ z. v.numbers i (omega (arith, p, z)) (omega (arith, q)));
    initial = λ i p q. v.initial i (omega (arith, p)) q;
    kept = λ i p q. elim (ℕ-cases i e) [
      | inl z ↦
          let writes : rank (update life e (writing t) i) ≡ 1 =
            ap rank (ap (update life e (writing t)) z ∙ update_self life e (writing t)) in
          absurd (omega (arith, p, writes))
      | inr z ↦
          let same : rank (update life e (writing t) i) ≡ rank (life i) =
            ap rank (update_ne life (writing t) z) in
          v.kept i (omega (arith, p, same)) (omega (arith, q, same)) ∙ sym (update_ne value x z)
    ];
  }

  -- A consumer takes the next position, whose element is there.
  pub deq-IsShared :
      (t : ℕ) → life d ≡ full → IsShared m e (d + 1) seq storage (update life d (reading t)) value
  deq-IsShared t is_full =
      let before : d < e = elim (below_or_above d e) [
        | inl less ↦ less
        | inr more ↦ absurd (omega (arith, ap rank is_full, ap rank (v.unused d more)))
      ] in
      record {
        enqueued = λ i p.
            update_cases (λ l. 1 ≤ rank l) life d (reading t) i (λ z. omega arith)
              (λ z. v.enqueued i p);
        unused = λ i p.
            update_cases (λ l. l ≡ fresh) life d (reading t) i
              (λ z. absurd (omega (arith, p, z, before))) (λ z. v.unused i p);
        dequeued = λ i p.
            update_cases (λ l. 3 ≤ rank l) life d (reading t) i (λ z. omega arith)
              (λ z. v.dequeued i (omega (arith, p, z)));
        waiting = λ i p.
            update_cases (λ l. rank l < 3) life d (reading t) i (λ z. absurd (omega (arith, p, z)))
              (λ z. v.waiting i (omega (arith, p)));
        past = λ i p.
            update_cases (λ l. rank l ≡ 4) life d (reading t) i
              (λ z. absurd (omega (arith, p, z, held.1))) (λ z. v.past i p);
        numbers = λ i p q.
            update_cases (λ l. seq (i % m) ≡ number m l i) life d (reading t) i
              (λ z. v.numbers i p q ∙ ap (λ l. number m l i) (ap life z ∙ is_full))
              (λ z. v.numbers i p q);
        initial = v.initial;
        kept = λ i p q. elim (ℕ-cases i d) [
          | inl z ↦
              let was : rank (life i) ≡ 2 = ap rank (ap life z ∙ is_full) in
              v.kept i (omega (arith, was)) (omega (arith, was))
          | inr z ↦
              let same : rank (update life d (reading t) i) ≡ rank (life i) =
                ap rank (update_ne life (reading t) z) in
              v.kept i (omega (arith, p, same)) (omega (arith, q, same))
        ];
      }

  module _ (j : ℕ) (out : 1 ≤ rank (life j)) (held_out : rank (life j) ≤ 3) where
    pub other_cell : (i : ℕ) → i ≢ j → i < e → e ≤ i + m → i % m ≢ j % m
    other_cell i z p q =
        let window = in_use j out held_out in
        apart m i j z (omega (arith, p, window.1)) (omega (arith, q, window.0))

    -- The owner of a position goes on to the life `l` and stores the number of its cell.
    pub store-IsShared :
        (l : Life)
        → 1 ≤ rank l
        → (rank (life j) < 3 → rank l < 3)
        → (3 ≤ rank (life j) → 3 ≤ rank l)
        → (rank l ≤ 3 → storage (j % m) ≡ value j)
        → IsShared m e d (update seq (j % m) (number m l j)) storage (update life j l) value
    store-IsShared l some up down stored =
        let window = in_use j out held_out in
        record {
          enqueued =
              λ i p. update_cases (λ l. 1 ≤ rank l) life j l i (λ z. some) (λ z. v.enqueued i p);
          unused = λ i p.
              update_cases (λ l. l ≡ fresh) life j l i (λ z. absurd (omega (arith, p, z, window.0)))
                (λ z. v.unused i p);
          dequeued = λ i p.
              update_cases (λ l. 3 ≤ rank l) life j l i
                (λ z. down (subst (λ k. 3 ≤ rank (life k)) z (v.dequeued i p)))
                (λ z. v.dequeued i p);
          waiting = λ i p.
              update_cases (λ l. rank l < 3) life j l i
                (λ z. up (subst (λ k. rank (life k) < 3) z (v.waiting i p))) (λ z. v.waiting i p);
          past = λ i p.
              update_cases (λ l. rank l ≡ 4) life j l i
                (λ z. absurd (omega (arith, p, z, window.1))) (λ z. v.past i p);
          numbers = λ i p q.
              update_cases (λ k. update seq (j % m) (number m l j) (i % m) ≡ number m k i) life j l
                i
                (λ z.
                  ap (λ k. update seq (j % m) (number m l j) (k % m)) z
                  ∙ update_self seq (j % m) (number m l j)
                  ∙ ap (number m l) (sym z))
                (λ z. update_ne seq (number m l j) (other_cell i z p q) ∙ v.numbers i p q);
          initial = λ i p q.
              let small : j % m ≡ j = mod-eq_of_lt (omega (arith, p, q, window.0)) in
              update_ne seq (number m l j) (λ z. absurd (omega (arith, z, small, p, window.0)))
              ∙ v.initial i p q;
          kept = λ i p q. elim (ℕ-cases i j) [
            | inl z ↦
                let is_l : rank (update life j l i) ≡ rank l =
                  ap rank (ap (update life j l) z ∙ update_self life j l) in
                ap (λ k. storage (k % m)) z ∙ stored (omega (arith, q, is_l)) ∙ ap value (sym z)
            | inr z ↦
                let same : rank (update life j l i) ≡ rank (life i) =
                  ap rank (update_ne life l z) in
                v.kept i (omega (arith, p, same)) (omega (arith, q, same))
          ];
        }

    -- A producer builds its element.
    pub build-IsShared :
        (x : A) → rank (life j) ≡ 1 → IsShared m e d seq (update storage (j % m) x) life value
    build-IsShared x writes = record {
      enqueued = v.enqueued;
      unused = v.unused;
      dequeued = v.dequeued;
      waiting = v.waiting;
      past = v.past;
      numbers = v.numbers;
      initial = v.initial;
      kept = λ i p q.
          let here = in_use i (omega (arith, p)) q in
          let differ : i ≢ j = λ z. absurd (omega (arith, p, writes, ap (λ k. rank (life k)) z)) in
          update_ne storage x (other_cell i differ here.0 here.1) ∙ v.kept i p q;
    }
