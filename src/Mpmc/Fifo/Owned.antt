-- ===== src/Mpmc/Fifo/Owned.antt =====
-- `MPMCQueue`: the accesses of a thread that has a position.
use native.Mathlib.Nat.{mod-eq_of_lt}
use uvent.Common.{ℕ, ◌+◌, ◌%◌, ◌^◌, ◌≤◌, ◌<◌, ◌≡◌, ◌≢◌, sym, ap, subst, ◌∙◌, arith}
use uvent.Common.Bits.{u64}
use uvent.Common.Memory.{update, update_self}
use uvent.Mpmc.{cell_at, build_at, publish_at, move_from, release_at}
use uvent.Mpmc.Steps.{
  outside, building, built, taking, moved, Life, full, gone, writing, reading, World, go,
}
use uvent.Mpmc.Cells.{rank, number}
use uvent.Mpmc.Shared.{in_use, store-IsShared, build-IsShared}
use uvent.Mpmc.Threads.{Knows, owner, Knows-store, Knows-build}
use uvent.Mpmc.Fifo.{IsFifo, IsGoing}
use uvent.Mpmc.Fifo.Accesses.{now, everyone, cell_is, quiet-IsFifo}

module _ {A : Type 0} (k : ℕ) (two : 2 ≤ 2 ^ k) (w : World A) (v : IsFifo k w) where
  abbrev e : ℕ
  e = w.queue.enq_pos

  abbrev d : ℕ
  d = w.queue.deq_pos

  abbrev m : ℕ
  m = 2 ^ k

  abbrev seq : ℕ → ℕ
  seq = w.queue.seq

  abbrev storage : ℕ → A
  storage = w.queue.storage

  -- The position `j` of the thread `t` goes on to the life `l`, and the thread leaves.
  module _ (t j : ℕ) (out : 1 ≤ rank (w.life j)) (held_out : rank (w.life j) ≤ 3)
      (not_full : w.life j ≢ full) (own : owner (w.life j) ≡ t) where
    others_differ : (s : ℕ) → s ≢ t → owner (w.life j) ≢ s
    others_differ s z same = z (sym same ∙ own)

    store-IsGoing :
        (l : Life)
        → 1 ≤ rank l
        → (rank (w.life j) < 3 → rank l < 3)
        → (3 ≤ rank (w.life j) → 3 ≤ rank l)
        → (rank l ≤ 3 → storage (j % m) ≡ w.value j)
        → (n : ℕ) → n ≡ number m l j
        → IsGoing m e d
            (update seq (cell_at w.queue j) n)
            storage
            (update w.life j l)
            w.value
            (update w.threads t outside)
    store-IsGoing l some up down stored n is_number =
        subst
          (λ c.
            IsGoing m e d (update seq c n) storage (update w.life j l) w.value
              (update w.threads t outside))
          (sym (cell_is k two w v j))
          (subst
            (λ i.
              IsGoing m e d (update seq (j % m) i) storage (update w.life j l) w.value
                (update w.threads t outside))
            (sym is_number)
            (
              store-IsShared m e d seq storage w.life w.value two v.going.0 j out held_out l some up
                  down stored,
              everyone k two w v
                  (Knows m e d (update seq (j % m) (number m l j)) storage (update w.life j l)
                    w.value)
                  t outside tt
                  (λ s z.
                    Knows-store m e d seq storage w.life w.value two v.going.0 j s out held_out
                      not_full (others_differ s z) l (w.threads s) (v.going.1 s)),
            ))

  pub build-IsFifo :
      (t pos : ℕ) (x : A)
      → w.threads t ≡ building pos x
      → IsFifo k (go t (built pos x) (build_at pos x w.queue) w)
  unfolding build_at
  build-IsFifo t pos x at_pos =
      let mine : (w.life pos ≡ writing t) × (w.value pos ≡ x) =
        now k two w v t (building pos x) at_pos in
      let writes : rank (w.life pos) ≡ 1 = ap rank mine.0 in
      let out : 1 ≤ rank (w.life pos) = omega (arith, writes) in
      let held_out : rank (w.life pos) ≤ 3 = omega (arith, writes) in
      let not_full : w.life pos ≢ full = λ z. omega (arith, writes, ap rank z) in
      record {
        mask_is = v.mask_is;
        capacity_is = v.capacity_is;
        small = v.small;
        going =
            subst
              (λ c.
                IsGoing m e d seq (update storage c x) w.life w.value
                  (update w.threads t (built pos x)))
              (sym (cell_is k two w v pos))
              (
                build-IsShared m e d seq storage w.life w.value two v.going.0 pos out held_out x
                    writes,
                everyone k two w v (Knows m e d seq (update storage (pos % m) x) w.life w.value) t
                    (built pos x) (mine.0, mine.1, update_self storage (pos % m) x)
                    (λ s z.
                      Knows-build m e d seq storage w.life w.value two v.going.0 pos s out held_out
                        not_full (others_differ t pos out held_out not_full (ap owner mine.0) s z) x
                        (w.threads s) (v.going.1 s)),
              );
      }

  pub publish-IsFifo :
      (t pos : ℕ) (x : A)
      → w.threads t ≡ built pos x
      → IsFifo k
          (record (go t outside (publish_at pos w.queue) w) { life = update w.life pos full })
  unfolding publish_at
  publish-IsFifo t pos x at_pos =
      let mine : (w.life pos ≡ writing t) × (w.value pos ≡ x) × (storage (pos % m) ≡ x) =
        now k two w v t (built pos x) at_pos in
      let writes : rank (w.life pos) ≡ 1 = ap rank mine.0 in
      let out : 1 ≤ rank (w.life pos) = omega (arith, writes) in
      let held_out : rank (w.life pos) ≤ 3 = omega (arith, writes) in
      let window = in_use m e d seq storage w.life w.value two v.going.0 pos out held_out in
      record {
        mask_is = v.mask_is;
        capacity_is = v.capacity_is;
        small = v.small;
        going =
            store-IsGoing t pos out held_out (λ z. omega (arith, writes, ap rank z))
              (ap owner mine.0) full (omega arith) (λ z. omega arith)
              (λ z. absurd (omega (arith, z, writes))) (λ z. mine.2 ∙ sym mine.1) (u64 (pos + 1))
              (mod-eq_of_lt (omega (arith, window.0, v.small)));
      }

  pub move-IsFifo :
      (t pos : ℕ)
      → w.threads t ≡ taking pos
      → IsFifo k (go t (moved pos (move_from pos w.queue)) w.queue w)
  unfolding move_from
  move-IsFifo t pos at_pos =
      let mine : w.life pos ≡ reading t = now k two w v t (taking pos) at_pos in
      let reads : rank (w.life pos) ≡ 3 = ap rank mine in
      quiet-IsFifo k two w v t (moved pos (storage (cell_at w.queue pos))) (
        mine,
        ap storage (cell_is k two w v pos)
            ∙ v.going.0.kept pos (omega (arith, reads)) (omega (arith, reads)),
      )

  pub release-IsFifo :
      (t pos : ℕ) (x : A)
      → w.threads t ≡ moved pos x
      → IsFifo k
          (record (go t outside (release_at pos w.queue) w) { life = update w.life pos gone })
  unfolding release_at
  release-IsFifo t pos x at_pos =
      let mine : (w.life pos ≡ reading t) × (x ≡ w.value pos) =
        now k two w v t (moved pos x) at_pos in
      let reads : rank (w.life pos) ≡ 3 = ap rank mine.0 in
      let out : 1 ≤ rank (w.life pos) = omega (arith, reads) in
      let held_out : rank (w.life pos) ≤ 3 = omega (arith, reads) in
      let window = in_use m e d seq storage w.life w.value two v.going.0 pos out held_out in
      record {
        mask_is = v.mask_is;
        capacity_is = v.capacity_is;
        small = v.small;
        going =
            store-IsGoing t pos out held_out (λ z. omega (arith, reads, ap rank z))
              (ap owner mine.0) gone (omega arith) (λ z. absurd (omega (arith, z, reads)))
              (λ z. omega arith) (λ z. absurd (omega (arith, z))) (u64 (pos + w.queue.capacity))
              (mod-eq_of_lt (omega (arith, window.0, v.small, v.capacity_is))
                ∙ ap (λ c. pos + c) v.capacity_is);
      }
