-- ===== src/Spsc/Fifo.antt =====
-- `SPSCQueue`: what is received is a beginning of what is sent.
use Prim.Native.Nat.{bit_and}
use uvent.Common.{
  ℕ, zero, suc, ◌+◌, ◌-◌, ◌%◌, ◌^◌, ◌≤◌, ◌<◌, ◌≡◌, ◌≢◌, refl, sym, ap, subst, ◌∙◌, arith, false,
  List, [], ◌∷◌, ◌++◌, length, inl, inr, ℕ-cases, ==-false→ne,
}
use uvent.Common.Bits.{u64, pow-pos}
use uvent.FastQueue.Window.{tabulate, length-tabulate}
use uvent.Spsc.{SpscQueue, new_queue, is_empty, front, advance}
use uvent.Spsc.Steps.{
  Producer, outside, has_room, has_built, away, has_seen, has_moved, Ring, Step, room_step,
  build_step, publish_step, see_step, move_step, advance_step, Runs, done, next, start,
}
use uvent.Spsc.Ring.{append_one, zero_mod, step_cell, other_cell, at, Knows, Reads, IsRing}
use uvent.Spsc.Produce.{room-IsRing, build-IsRing, publish-IsRing}

module _ {A : Type 0} (k : ℕ) (small : k ≤ 63) where
  see-IsRing :
      (r : Ring A)
      → is_empty r.queue ≡ false
      → IsRing k r
      → IsRing k (record r { consumer = has_seen })
  unfolding is_empty
  see-IsRing r e v =
      let differ : r.queue.head ≢ r.queue.tail = ==-false→ne r.queue.head r.queue.tail e in
      record {
        first = v.first;
        count = v.count;
        mask_is = v.mask_is;
        head_is = v.head_is;
        tail_is = v.tail_is;
        fits = v.fits;
        log = v.log;
        knows = v.knows;
        reads = elim (ℕ-cases v.count 0) [
          | inl none ↦
              let same : v.first ≡ v.first + v.count = omega (arith, none) in
              absurd (differ (v.head_is ∙ ap (λ i. i % 2 ^ k) same ∙ sym v.tail_is))
          | inr some ↦ omega (arith, some)
        ];
      }

  move-IsRing :
      (r : Ring A)
      → r.consumer ≡ has_seen
      → IsRing k r
      → IsRing k (record r { consumer = has_moved (front r.queue) })
  unfolding front
  move-IsRing r e v = record {
    first = v.first;
    count = v.count;
    mask_is = v.mask_is;
    head_is = v.head_is;
    tail_is = v.tail_is;
    fits = v.fits;
    log = v.log;
    knows = v.knows;
    reads = (subst (λ c. Reads c r.queue v.count) e v.reads, refl);
  }

  Knows-advance :
      (p : Producer A) (q : SpscQueue A) (n m : ℕ) → m ≤ n → Knows k p q n → Knows k p (advance q) m
  unfolding advance
  Knows-advance outside q n m h p = tt
  Knows-advance (has_room x) q n m h p = omega (arith, h, p)
  Knows-advance (has_built x) q n m h p = (omega (arith, h, p.0), p.1)

  -- The element at the front leaves.
  shrunk :
      (q : SpscQueue A) (h n : ℕ) (x : A) (xs : List A)
      → 1 ≤ n
      → at k q h ≡ x
      → xs ++ tabulate (at k q) h n ≡ (xs ++ x ∷ []) ++ tabulate (at k q) (h + 1) (n - 1)
  shrunk q h zero x xs p e = absurd (omega (arith, p))
  shrunk q h (suc n) x xs p e =
      let left : suc n - 1 ≡ n = omega arith in
      rw (left) (
        ap (λ y. xs ++ y ∷ tabulate (at k q) (h + 1) n) e
        ∙ append_one xs (tabulate (at k q) (h + 1) n) x)

  advance-IsRing :
      (x : A) (r : Ring A)
      → r.consumer ≡ has_moved x
      → IsRing k r
      → IsRing k
          (record r { queue = advance r.queue; consumer = away; received = r.received ++ x ∷ [] })
  unfolding advance
  advance-IsRing x r e v =
      let moved : (1 ≤ v.count) × (r.queue.buf r.queue.head ≡ x) =
        subst (λ c. Reads c r.queue v.count) e v.reads in
      let first_is : at k r.queue v.first ≡ x = ap r.queue.buf (sym v.head_is) ∙ moved.1 in
      let total : v.first + v.count ≡ v.first + 1 + (v.count - 1) = omega (arith, moved.0) in
      record {
        first = v.first + 1;
        count = v.count - 1;
        mask_is = v.mask_is;
        head_is =
            ap (λ t. bit_and (u64 (t + 1)) r.queue.mask) v.head_is
            ∙ step_cell k small v.first r.queue.mask v.mask_is;
        tail_is = v.tail_is ∙ ap (λ i. i % 2 ^ k) total;
        fits = omega (arith, v.fits);
        log = v.log ∙ shrunk r.queue v.first v.count x r.received moved.0 first_is;
        knows = Knows-advance r.producer r.queue v.count (v.count - 1) (omega arith) v.knows;
        reads = tt;
      }

  Step-IsRing : {q r : Ring A} → IsRing k q → Step q r → IsRing k r
  Step-IsRing v (room_step x r e f) = room-IsRing k small x r f v
  Step-IsRing v (build_step x r e) = build-IsRing k small x r e v
  Step-IsRing v (publish_step x r e) = publish-IsRing k small x r e v
  Step-IsRing v (see_step r e f) = see-IsRing r f v
  Step-IsRing v (move_step r e) = move-IsRing r e v
  Step-IsRing v (advance_step x r e) = advance-IsRing x r e v

  start-IsRing : (raw : ℕ → A) → IsRing k (start (new_queue k raw))
  start-IsRing raw = record {
    first = 0;
    count = zero;
    mask_is = refl;
    head_is = sym (zero_mod k);
    tail_is = sym (zero_mod k);
    fits = pow-pos k;
    log = refl;
    knows = tt;
    reads = tt;
  }

  pub reachable-IsRing : {raw : ℕ → A} {r : Ring A} → Runs (start (new_queue k raw)) r → IsRing k r
  reachable-IsRing {raw} (done _) = start-IsRing raw
  reachable-IsRing (next s t) = Step-IsRing (reachable-IsRing s) t

  -- What has been sent is what has been received, followed by fewer than `2^k` elements.
  pub record IsFifo (r : Ring A) : Type 0 where
    pub rest : List A
    pub sent_is : r.sent ≡ r.received ++ rest
    pub bounded : length rest < 2 ^ k

  -- In every interleaving of one producer and one consumer of a queue made for `2^k` elements, with k at
  -- most 63, the elements are received in the order in which they were sent, none lost or doubled, and
  -- fewer than `2^k` are under way.
  pub reachable-IsFifo : {raw : ℕ → A} {r : Ring A} → Runs (start (new_queue k raw)) r → IsFifo r
  reachable-IsFifo {raw} {r} s =
      let v = reachable-IsRing s in
      record {
        rest = tabulate (at k r.queue) v.first v.count;
        sent_is = v.log;
        bounded =
            subst (λ n. n < 2 ^ k) (sym (length-tabulate (at k r.queue) v.first v.count)) v.fits;
      }

  -- While the producer may build an element and the consumer may move one out, these are in different
  -- cells.
  pub reachable-Apart :
      {raw : ℕ → A} {r : Ring A}
      → Runs (start (new_queue k raw)) r
      → (x : A) → r.producer ≡ has_room x
      → r.consumer ≡ has_seen
      → r.queue.head ≢ r.queue.tail
  reachable-Apart {raw} {r} s x e f same =
      let v = reachable-IsRing s in
      let some : 1 ≤ v.count = subst (λ c. Reads c r.queue v.count) f v.reads in
      other_cell k v.first v.count v.first (omega arith) (omega (arith, some)) v.fits
        (sym v.head_is ∙ same ∙ v.tail_is)
