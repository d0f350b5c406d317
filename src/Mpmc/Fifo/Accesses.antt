-- ===== src/Mpmc/Fifo/Accesses.antt =====
-- `MPMCQueue`: each access keeps what holds between accesses.
use native.Mathlib.Nat.{mod-eq_of_lt}
use uvent.Common.{ℕ, ◌+◌, ◌%◌, ◌^◌, ◌≤◌, ◌<◌, ◌≡◌, ◌≢◌, sym, ap, subst, ◌∙◌, arith}
use Prim.Native.Nat.{bit_and}
use uvent.Common.Bits.{u64, bit_and_mask}
use uvent.Common.Memory.{update_cases, update, update_self}
use uvent.Mpmc.{cell_at, dif, Sign, enq_dif, enq_claim, deq_dif, deq_claim}
use uvent.Mpmc.Steps.{
  Thread, enq_at, enq_free, building, deq_at, deq_full, taking, full, writing, reading, World, go,
}
use uvent.Mpmc.Cells.{dif-eq}
use uvent.Mpmc.Shared.{held, enq-IsShared, deq-IsShared}
use uvent.Mpmc.Claims.{end_number, front_number, deq_ready}
use uvent.Mpmc.Threads.{Knows, Knows-enq, Knows-deq}
use uvent.Mpmc.Fifo.{IsFifo, IsGoing}

module _ {A : Type 0} (k : ℕ) (two : 2 ≤ 2 ^ k) (w : World A) (v : IsFifo k w) where
  abbrev e : ℕ
  e = w.queue.enq_pos

  abbrev d : ℕ
  d = w.queue.deq_pos

  abbrev m : ℕ
  m = 2 ^ k

  abbrev seq : ℕ → ℕ
  seq = w.queue.seq

  abbrev storage : ℕ → A
  storage = w.queue.storage

  pub cell_is : (pos : ℕ) → cell_at w.queue pos ≡ pos % m
  cell_is pos = ap (bit_and pos) v.mask_is ∙ bit_and_mask k pos

  -- What the thread `t` knows now, by how far it is.
  pub now : (t : ℕ) (p : Thread A) → w.threads t ≡ p → Knows m e d seq storage w.life w.value t p
  now t p at_p = subst (Knows m e d seq storage w.life w.value t) at_p (v.going.1 t)

  -- The thread `t` goes on to `p`, and the others know the same.
  pub everyone :
      (P : ℕ → Thread A → Type 0) (t : ℕ) (p : Thread A)
      → P t p
      → ((s : ℕ) → s ≢ t → P s (w.threads s))
      → (s : ℕ) → P s (update w.threads t p s)
  everyone P t p own others s =
      update_cases (P s) w.threads t p s (λ z. subst (λ i. P i p) (sym z) own) (others s)

  pub quiet-IsFifo :
      (t : ℕ) (p : Thread A)
      → Knows m e d seq storage w.life w.value t p
      → IsFifo k (go t p w.queue w)
  quiet-IsFifo t p own = record {
    mask_is = v.mask_is;
    capacity_is = v.capacity_is;
    small = v.small;
    going =
        (v.going.0, everyone (Knows m e d seq storage w.life w.value) t p own (λ s z. v.going.1 s));
  }

  pub enq_look-IsFifo :
      (t pos : ℕ) (x : A)
      → w.threads t ≡ enq_at pos x
      → enq_dif w.queue pos ≡ Sign.none
      → IsFifo k (go t (enq_free pos x) w.queue w)
  unfolding enq_dif
  enq_look-IsFifo t pos x at_pos none_is =
      let late : pos ≤ e = now t (enq_at pos x) at_pos in
      quiet-IsFifo t (enq_free pos x) (
        late,
        λ z.
            let top : seq (pos % m) ≤ e =
              subst (λ i. seq (i % m) ≤ e) (sym z)
                (end_number m e d seq storage w.life w.value two v.going.0) in
            dif-eq (seq (pos % m)) pos (omega (arith, top, v.small)) (omega (arith, late, v.small))
              (ap (λ c. dif (seq c) pos) (sym (cell_is pos)) ∙ none_is),
      )

  pub enq_win-IsFifo :
      (t pos : ℕ) (x : A)
      → w.threads t ≡ enq_free pos x
      → e ≡ pos
      → pos + 1 + w.queue.capacity < 2 ^ 64
      → IsFifo k (record (go t (building pos x) (enq_claim w.queue) w) {
        life = update w.life pos (writing t);
        value = update w.value pos x;
      })
  unfolding enq_claim
  enq_win-IsFifo t pos x at_pos same room =
      let bound : pos + 1 + m < 2 ^ 64 = omega (arith, room, v.capacity_is) in
      let next : u64 (e + 1) ≡ e + 1 = mod-eq_of_lt (omega (arith, bound, same)) in
      let ready : seq (e % m) ≡ e =
        ap (λ i. seq (i % m)) same ∙ (now t (enq_free pos x) at_pos).1 (sym same) ∙ sym same in
      let at_end : IsGoing m (e + 1) d seq storage (update w.life e (writing t))
          (update w.value e x) (update w.threads t (building e x)) =
        (
          enq-IsShared m e d seq storage w.life w.value two v.going.0 t x ready,
          everyone
              (Knows m (e + 1) d seq storage (update w.life e (writing t)) (update w.value e x)) t
              (building e x) (update_self w.life e (writing t), update_self w.value e x)
              (λ s z.
                Knows-enq m e d seq storage w.life w.value two v.going.0 t x s (w.threads s)
                  (v.going.1 s)),
        ) in
      record {
        mask_is = v.mask_is;
        capacity_is = v.capacity_is;
        small = omega (arith, next, bound, same);
        going =
            subst
              (λ n.
                IsGoing m n d seq storage (update w.life pos (writing t)) (update w.value pos x)
                  (update w.threads t (building pos x)))
              (sym next)
              (subst
                (λ j.
                  IsGoing m (e + 1) d seq storage (update w.life j (writing t)) (update w.value j x)
                    (update w.threads t (building j x)))
                same at_end);
      }

  pub deq_look-IsFifo :
      (t pos : ℕ)
      → w.threads t ≡ deq_at pos
      → deq_dif w.queue pos ≡ Sign.none
      → IsFifo k (go t (deq_full pos) w.queue w)
  unfolding deq_dif
  deq_look-IsFifo t pos at_pos none_is =
      let late : pos ≤ d = now t (deq_at pos) at_pos in
      let bounds = held m e d seq storage w.life w.value two v.going.0 in
      let next : u64 (pos + 1) ≡ pos + 1 =
        mod-eq_of_lt (omega (arith, late, bounds.0, v.small, two)) in
      quiet-IsFifo t (deq_full pos) (
        late,
        λ z.
            let top : seq (pos % m) ≤ e + m =
              subst (λ i. seq (i % m) ≤ e + m) (sym z)
                (front_number m e d seq storage w.life w.value two v.going.0) in
            let sure : seq (pos % m) ≡ pos + 1 =
              dif-eq (seq (pos % m)) (pos + 1) (omega (arith, top, v.small))
                (omega (arith, late, bounds.0, v.small, two))
                (ap (λ c. dif (seq c) (pos + 1)) (sym (cell_is pos))
                  ∙ ap (dif (seq (cell_at w.queue pos))) (sym next)
                  ∙ none_is) in
            subst (λ i. w.life i ≡ full) (sym z)
              (deq_ready m e d seq storage w.life w.value two v.going.0
                (subst (λ i. seq (i % m) ≡ i + 1) z sure)),
      )

  pub deq_win-IsFifo :
      (t pos : ℕ)
      → w.threads t ≡ deq_full pos
      → d ≡ pos
      → IsFifo k (record (go t (taking pos) (deq_claim w.queue) w) {
        life = update w.life pos (reading t);
      })
  unfolding deq_claim
  deq_win-IsFifo t pos at_pos same =
      let bounds = held m e d seq storage w.life w.value two v.going.0 in
      let next : u64 (d + 1) ≡ d + 1 = mod-eq_of_lt (omega (arith, bounds.0, v.small, two)) in
      let is_full : w.life d ≡ full = ap w.life same ∙ (now t (deq_full pos) at_pos).1 (sym same) in
      let at_front : IsGoing m e (d + 1) seq storage (update w.life d (reading t)) w.value
          (update w.threads t (taking d)) =
        (
          deq-IsShared m e d seq storage w.life w.value two v.going.0 t is_full,
          everyone (Knows m e (d + 1) seq storage (update w.life d (reading t)) w.value) t
              (taking d) (update_self w.life d (reading t))
              (λ s z.
                Knows-deq m e d seq storage w.life w.value two v.going.0 t s is_full (w.threads s)
                  (v.going.1 s)),
        ) in
      record {
        mask_is = v.mask_is;
        capacity_is = v.capacity_is;
        small = v.small;
        going =
            subst
              (λ n.
                IsGoing m e n seq storage (update w.life pos (reading t)) w.value
                  (update w.threads t (taking pos)))
              (sym next)
              (subst
                (λ j.
                  IsGoing m e (d + 1) seq storage (update w.life j (reading t)) w.value
                    (update w.threads t (taking j)))
                same at_front);
      }
