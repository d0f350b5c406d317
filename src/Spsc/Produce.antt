-- ===== src/Spsc/Produce.antt =====
-- `SPSCQueue`: the steps of the producer keep the ring.
use Prim.Native.Nat.{bit_and}
use native.Mathlib.Nat.{add_assoc, add-mul-mod_self_right}
use uvent.Common.{
  ℕ, zero, suc, ◌+◌, ◌*◌, ◌%◌, ◌^◌, ◌≤◌, ◌<◌, ◌≡◌, ◌≢◌, sym, ap, subst, ◌∙◌, arith, false, [], ◌∷◌,
  ◌++◌, inl, inr, ℕ-cases, ==-false→ne,
}
use uvent.Common.Bits.{u64}
use uvent.Common.Memory.{update_self, update_ne}
use uvent.FastQueue.Window.{tabulate, tabulate_ext, tabulate-append}
use uvent.Spsc.{SpscQueue, next_tail, is_full, construct, publish}
use uvent.Spsc.Steps.{outside, has_room, has_built, Consumer, away, has_seen, has_moved, Ring}
use uvent.Spsc.Ring.{append_last, step_cell, other_cell, at, Knows, Reads, IsRing}

module _ {A : Type 0} (k : ℕ) (small : k ≤ 63) where
  Reads-construct :
      (x : A) (c : Consumer A) (q : SpscQueue A) (h n : ℕ)
      → q.head ≡ h % 2 ^ k
      → q.tail ≡ (h + n) % 2 ^ k
      → n < 2 ^ k
      → Reads c q n
      → Reads c (construct x q) n
  unfolding construct
  Reads-construct x away q h n e f s p = tt
  Reads-construct x has_seen q h n e f s p = p
  Reads-construct x (has_moved y) q h n e f s p = (
    p.0,
    update_ne q.buf x (λ z. other_cell k h n h (omega arith) (omega (arith, p.0)) s (sym e ∙ z ∙ f))
        ∙ p.1,
  )

  pub room-IsRing :
      (x : A) (r : Ring A)
      → is_full r.queue ≡ false
      → IsRing k r
      → IsRing k (record r { producer = has_room x })
  unfolding is_full
  room-IsRing x r e v =
      let stays : next_tail r.queue ≢ r.queue.head =
        ==-false→ne (next_tail r.queue) r.queue.head e in
      let cell_is : next_tail r.queue ≡ (v.first + v.count + 1) % 2 ^ k =
        ap (λ t. bit_and (u64 (t + 1)) r.queue.mask) v.tail_is
        ∙ step_cell k small (v.first + v.count) r.queue.mask v.mask_is in
      record {
        first = v.first;
        count = v.count;
        mask_is = v.mask_is;
        head_is = v.head_is;
        tail_is = v.tail_is;
        fits = v.fits;
        log = v.log;
        knows = elim (ℕ-cases (v.count + 1) (2 ^ k)) [
          | inl full ↦
              let turn : v.first + v.count + 1 ≡ v.first + 1 * 2 ^ k = omega (arith, full) in
              let round : (v.first + v.count + 1) % 2 ^ k ≡ v.first % 2 ^ k =
                ap (λ m. m % 2 ^ k) turn ∙ add-mul-mod_self_right v.first 1 (2 ^ k) in
              absurd (stays (cell_is ∙ round ∙ sym v.head_is))
          | inr less ↦ omega (arith, less, v.fits)
        ];
        reads = v.reads;
      }

  pub build-IsRing :
      (x : A) (r : Ring A)
      → r.producer ≡ has_room x
      → IsRing k r
      → IsRing k (record r { queue = construct x r.queue; producer = has_built x })
  unfolding construct
  build-IsRing x r e v =
      let room : v.count + 1 < 2 ^ k = subst (λ p. Knows k p r.queue v.count) e v.knows in
      let same : tabulate (at k r.queue) v.first v.count
          ≡ tabulate (at k (construct x r.queue)) v.first v.count =
        tabulate_ext (at k r.queue) (at k (construct x r.queue)) v.first v.count (λ j a b. sym (
          update_ne r.queue.buf x
            (λ z. other_cell k v.first v.count j a b v.fits (z ∙ v.tail_is)))) in
      record {
        first = v.first;
        count = v.count;
        mask_is = v.mask_is;
        head_is = v.head_is;
        tail_is = v.tail_is;
        fits = v.fits;
        log = v.log ∙ ap (λ l. r.received ++ l) same;
        knows = (room, update_self r.queue.buf r.queue.tail x);
        reads =
            Reads-construct x r.consumer r.queue v.first v.count v.head_is v.tail_is v.fits v.reads;
      }

  -- The element at the end, once it is published.
  grown :
      (q : SpscQueue A) (h n : ℕ) (x : A)
      → at k q (h + n) ≡ x
      → tabulate (at k q) h (n + suc zero) ≡ tabulate (at k q) h n ++ x ∷ []
  grown q h n x e =
      tabulate-append (at k q) h n (suc zero) ∙ ap (λ y. tabulate (at k q) h n ++ y ∷ []) e

  Reads-publish :
      (c : Consumer A) (q : SpscQueue A) (n m : ℕ) → n ≤ m → Reads c q n → Reads c (publish q) m
  unfolding publish
  Reads-publish away q n m h p = tt
  Reads-publish has_seen q n m h p = omega (arith, h, p)
  Reads-publish (has_moved y) q n m h p = (omega (arith, h, p.0), p.1)

  pub publish-IsRing :
      (x : A) (r : Ring A)
      → r.producer ≡ has_built x
      → IsRing k r
      → IsRing k (record r { queue = publish r.queue; producer = outside; sent = r.sent ++ x ∷ [] })
  unfolding publish
  publish-IsRing x r e v =
      let built : (v.count + 1 < 2 ^ k) × (r.queue.buf r.queue.tail ≡ x) =
        subst (λ p. Knows k p r.queue v.count) e v.knows in
      let last : at k r.queue (v.first + v.count) ≡ x = ap r.queue.buf (sym v.tail_is) ∙ built.1 in
      record {
        first = v.first;
        count = v.count + suc zero;
        mask_is = v.mask_is;
        head_is = v.head_is;
        tail_is =
            ap (λ t. bit_and (u64 (t + 1)) r.queue.mask) v.tail_is
            ∙ step_cell k small (v.first + v.count) r.queue.mask v.mask_is
            ∙ ap (λ i. i % 2 ^ k) (add_assoc v.first v.count 1);
        fits = built.0;
        log =
            ap (λ l. l ++ x ∷ []) v.log
            ∙ append_last r.received (tabulate (at k r.queue) v.first v.count) x
            ∙ ap (λ l. r.received ++ l) (sym (grown r.queue v.first v.count x last));
        knows = tt;
        reads = Reads-publish r.consumer r.queue v.count (v.count + 1) (omega arith) v.reads;
      }
