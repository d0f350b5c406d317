-- ===== src/Mpmc/Fifo/Listed.antt =====
-- `MPMCQueue` as a list: whatever the threads do, elements leave in the order in which they came.
use native.Mathlib.Nat.{mod-eq_of_lt}
use uvent.Common.{
  ℕ, suc, ◌+◌, ◌-◌, ◌^◌, ◌≤◌, ◌<◌, ◌≡◌, refl, sym, ap, ◌∙◌, ap₂, arith, List, [], ◌∷◌, ◌++◌, length,
}
use uvent.Common.Bits.{u64}
use uvent.Common.Memory.{update, update_self, update_ne}
use uvent.FastQueue.Window.{tabulate, tabulate_ext, tabulate-append, length-tabulate}
use uvent.Mpmc.{new_ring, enq_claim, deq_claim, build_at, publish_at, release_at}
use uvent.Mpmc.Steps.{
  Runs, start, enq_free, building, deq_full, taking, reading, writing, World, Step, enq_start,
  enq_look, enq_full, enq_late, enq_lose, enq_win, build_step, publish_step, deq_start, deq_look,
  deq_empty, deq_late, deq_lose, deq_win, move_step, release_step,
}
use uvent.Mpmc.Shared.{held}
use uvent.Mpmc.Fifo.{IsFifo}
use uvent.Mpmc.Fifo.Reached.{start-IsFifo, run-IsFifo, Step-IsFifo}

-- The elements whose positions were handed to producers and not to consumers, in that order.
abbrev pub queued : {A : Type 0} → World A → List A
queued w = tabulate w.value w.queue.deq_pos (w.queue.enq_pos - w.queue.deq_pos)

-- What an access does to that list: nothing; the thread's own element is put at the end, where there is
-- room; the first element is taken, and the thread has its position.
pub data ListStep {A : Type 0} (capacity : ℕ) : World A → World A → Type 0 where
  stays : {v w : World A} → queued w ≡ queued v → ListStep capacity v w
  puts :
      {v w : World A} (t pos : ℕ) (x : A)
      → v.threads t ≡ enq_free pos x
      → w.threads t ≡ building pos x
      → length (queued v) < capacity
      → queued w ≡ queued v ++ x ∷ []
      → ListStep capacity v w
  takes :
      {v w : World A} (t pos : ℕ)
      → v.threads t ≡ deq_full pos
      → w.threads t ≡ taking pos
      → queued v ≡ w.value pos ∷ queued w
      → ListStep capacity v w

module _ {A : Type 0} (k : ℕ) (two : 2 ≤ 2 ^ k) where
  bounds :
      (v : World A)
      → IsFifo k v
      → (v.queue.deq_pos ≤ v.queue.enq_pos) × (v.queue.enq_pos ≤ v.queue.deq_pos + 2 ^ k)
  bounds v f =
      held (2 ^ k) v.queue.enq_pos v.queue.deq_pos v.queue.seq v.queue.storage v.life v.value two
        f.going.0

  put-queued :
      (v : World A) (x : A)
      → IsFifo k v
      → tabulate
          (update v.value v.queue.enq_pos x)
          v.queue.deq_pos
          (v.queue.enq_pos + 1 - v.queue.deq_pos)
        ≡ queued v ++ x ∷ []
  put-queued v x f =
      let e = v.queue.enq_pos in
      let d = v.queue.deq_pos in
      let more : e + 1 - d ≡ e - d + 1 = omega (arith, (bounds v f).0) in
      let end : d + (e - d) ≡ e = omega (arith, (bounds v f).0) in
      ap (tabulate (update v.value e x) d) more
      ∙ tabulate-append (update v.value e x) d (e - d) 1
      ∙ ap₂ ◌++◌
          (tabulate_ext (update v.value e x) v.value d (e - d)
            (λ j p q. update_ne v.value x (λ z. absurd (omega (arith, z, q, end)))))
          (ap (λ y. y ∷ []) (ap (update v.value e x) end ∙ update_self v.value e x))

  take-queued :
      (v : World A)
      → v.queue.deq_pos < v.queue.enq_pos
      → queued v
        ≡ v.value v.queue.deq_pos
          ∷ tabulate v.value (v.queue.deq_pos + 1) (v.queue.enq_pos - (v.queue.deq_pos + 1))
  take-queued v less =
      let e = v.queue.enq_pos in
      let d = v.queue.deq_pos in
      let more : e - d ≡ suc (e - (d + 1)) = omega (arith, less) in ap (tabulate v.value d) more

  pub Step-ListStep : {v w : World A} → IsFifo k v → Step v w → ListStep (2 ^ k) v w
  unfolding enq_claim deq_claim build_at publish_at release_at
  Step-ListStep f (enq_start t x v at_pos) = stays refl
  Step-ListStep f (enq_look t pos x v at_pos d) = stays refl
  Step-ListStep f (enq_full t pos x v at_pos d) = stays refl
  Step-ListStep f (enq_late t pos x v at_pos d) = stays refl
  Step-ListStep f (enq_lose t pos x v at_pos) = stays refl
  Step-ListStep f (enq_win t pos x v at_pos same room) =
      let g = Step-IsFifo k two f (enq_win t pos x v at_pos same room) in
      let next_end : u64 (v.queue.enq_pos + 1) ≡ v.queue.enq_pos + 1 =
        mod-eq_of_lt (omega (arith, same, room)) in
      let after : u64 (v.queue.enq_pos + 1) ≤ v.queue.deq_pos + 2 ^ k =
        (held (2 ^ k) (u64 (v.queue.enq_pos + 1)) v.queue.deq_pos v.queue.seq v.queue.storage
          (update v.life pos (writing t)) (update v.value pos x) two g.going.0).1 in
      puts t pos x at_pos (update_self v.threads t (building pos x))
        (omega (
          arith,
          after,
          next_end,
          (bounds v f).0,
          length-tabulate v.value v.queue.deq_pos (v.queue.enq_pos - v.queue.deq_pos),
        ))
        (ap (λ n. tabulate (update v.value pos x) v.queue.deq_pos (n - v.queue.deq_pos)) next_end
          ∙ ap
              (λ j.
                tabulate (update v.value j x) v.queue.deq_pos
                  (v.queue.enq_pos + 1 - v.queue.deq_pos))
              (sym same)
          ∙ put-queued v x f)
  Step-ListStep f (build_step t pos x v at_pos) = stays refl
  Step-ListStep f (publish_step t pos x v at_pos) = stays refl
  Step-ListStep f (deq_start t v at_pos) = stays refl
  Step-ListStep f (deq_look t pos v at_pos d) = stays refl
  Step-ListStep f (deq_empty t pos v at_pos d) = stays refl
  Step-ListStep f (deq_late t pos v at_pos d) = stays refl
  Step-ListStep f (deq_lose t pos v at_pos) = stays refl
  Step-ListStep f (deq_win t pos v at_pos same) =
      let g = Step-IsFifo k two f (deq_win t pos v at_pos same) in
      let next_front : u64 (v.queue.deq_pos + 1) ≡ v.queue.deq_pos + 1 =
        mod-eq_of_lt (omega (arith, f.small, (bounds v f).0, two)) in
      let after : u64 (v.queue.deq_pos + 1) ≤ v.queue.enq_pos =
        (held (2 ^ k) v.queue.enq_pos (u64 (v.queue.deq_pos + 1)) v.queue.seq v.queue.storage
          (update v.life pos (reading t)) v.value two g.going.0).0 in
      takes t pos at_pos (update_self v.threads t (taking pos)) (
        take-queued v (omega (arith, after, next_front))
        ∙ ap₂ ◌∷◌ (ap v.value same)
            (ap (λ n. tabulate v.value n (v.queue.enq_pos - n)) (sym next_front)))
  Step-ListStep f (move_step t pos v at_pos) = stays refl
  Step-ListStep f (release_step t pos x v at_pos) = stays refl

  -- For a queue of `2^k` cells, at least two and fewer than `2^64`, whose positions have not wrapped, and
  -- whatever the threads have done: an access does to the list of the elements queued what an access to a
  -- bounded list does: nothing, or the element of the thread whose exchange succeeded is put at the end,
  -- where there was room, or the thread whose exchange succeeded takes the position of the first element.
  pub reachable-ListStep :
      (raw initial : ℕ → A) {v w : World A}
      → 2 ^ k < 2 ^ 64
      → Runs (start (new_ring k raw) initial) v
      → Step v w
      → ListStep (2 ^ k) v w
  reachable-ListStep raw initial fits r s =
      Step-ListStep (run-IsFifo k two (start-IsFifo k two raw initial fits) r) s
