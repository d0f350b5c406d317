-- ===== src/Mutex/Exclusive.antt =====
-- AsyncMutex.cpp: mutual exclusion, and that no attempt waits for a mutex that is free.
use uvent.Common.{
  ℕ, suc, ◌≡◌, ◌⊎◌, inl, inr, refl, sym, ap, ◌∙◌, Bool, true, false, List, [], ◌∷◌, ◌++◌, length,
  length-append, arith,
}
use uvent.Mutex.{
  try_lock_raw, attach, cancel, remove_from, unlock, World, acquired, handed, Step, Runs, done,
  next, start, try_step, attach_step, cancel_step, unlock_step,
}

-- Free, with no owner and none that waits; or locked, with one owner.
abbrev pub IsExclusive : World → Type 0
IsExclusive w =
    ((w.mutex.locked ≡ false) × (w.owners ≡ []) × (w.mutex.waiters ≡ []))
    ⊎ ((w.mutex.locked ≡ true) × (length w.owners ≡ 1))

try-IsExclusive :
    (n : ℕ) (l : Bool) (ws os : List ℕ)
    → IsExclusive (record { mutex = record { locked = l; waiters = ws }; owners = os })
    → IsExclusive (acquired (try_lock_raw (record { locked = l; waiters = ws })) n os)
unfolding try_lock_raw
try-IsExclusive n true ws os v = v
try-IsExclusive n false ws os (inl v) = inr (refl, ap length (ap (λ o. n ∷ o) v.1))
try-IsExclusive n false ws os (inr v) = absurd (ground (arith, v.0))

attach-IsExclusive :
    (n : ℕ) (l : Bool) (ws os : List ℕ)
    → IsExclusive (record { mutex = record { locked = l; waiters = ws }; owners = os })
    → IsExclusive (acquired (attach (record { locked = l; waiters = ws }) n) n os)
unfolding attach try_lock_raw
attach-IsExclusive n true ws os (inl v) = absurd (ground (arith, v.0))
attach-IsExclusive n true ws os (inr v) = inr v
attach-IsExclusive n false ws os (inl v) = inr (refl, ap length (ap (λ o. n ∷ o) v.1))
attach-IsExclusive n false ws os (inr v) = absurd (ground (arith, v.0))

cancel-IsExclusive :
    (n : ℕ) (w : World) → IsExclusive w → IsExclusive (record w { mutex = cancel w.mutex n })
unfolding cancel remove_from
cancel-IsExclusive n w (inl v) = inl (v.0, v.1, ap (remove_from n) v.2)
cancel-IsExclusive n w (inr v) = inr v

-- Without its one owner a mutex has none.
left_empty :
    (before after : List ℕ) (n : ℕ)
    → length (before ++ n ∷ after) ≡ 1
    → length (before ++ after) ≡ 0
left_empty before after n h =
    omega (arith, h, length-append before (n ∷ after), length-append before after)

no_elements : (xs : List ℕ) → length xs ≡ 0 → xs ≡ []
no_elements [] h = refl
no_elements (x ∷ xs) h = absurd (omega (arith, h))

not_empty :
    (before after : List ℕ) (n : ℕ) → length (before ++ n ∷ after) ≡ 0 → [] ≡ before ++ after
not_empty before after n h = absurd (omega (arith, h, length-append before (n ∷ after)))

unlock-IsExclusive :
    (n : ℕ) (before after : List ℕ) (l : Bool) (ws os : List ℕ)
    → IsExclusive (record { mutex = record { locked = l; waiters = ws }; owners = os })
    → os ≡ before ++ n ∷ after
    → IsExclusive (handed (unlock (record { locked = l; waiters = ws })) (before ++ after))
unfolding unlock
unlock-IsExclusive n before after l ws os (inl v) e =
    absurd (omega (arith, ap length (sym v.1 ∙ e), length-append before (n ∷ after)))
unlock-IsExclusive n before after l [] os (inr v) e = inl (
  refl,
  no_elements (before ++ after) (left_empty before after n (sym (ap length e) ∙ v.1)),
  refl,
)
unlock-IsExclusive n before after l (w ∷ ws) os (inr v) e =
    inr (v.0, ap suc (left_empty before after n (sym (ap length e) ∙ v.1)))

Step-IsExclusive : {v w : World} → IsExclusive v → Step v w → IsExclusive w
Step-IsExclusive x (try_step n w) = try-IsExclusive n w.mutex.locked w.mutex.waiters w.owners x
Step-IsExclusive x (attach_step n w) =
    attach-IsExclusive n w.mutex.locked w.mutex.waiters w.owners x
Step-IsExclusive x (cancel_step n w) = cancel-IsExclusive n w x
Step-IsExclusive x (unlock_step n before after w e) =
    unlock-IsExclusive n before after w.mutex.locked w.mutex.waiters w.owners x e

-- However the attempts to lock, the cancellations and the unlocks of owners interleave, the mutex is
-- free with no owner and none that waits, or it is locked and has exactly one owner.
pub reachable-IsExclusive : {w : World} → Runs start w → IsExclusive w
reachable-IsExclusive (done w) = inl (refl, refl, refl)
reachable-IsExclusive (next r s) = Step-IsExclusive (reachable-IsExclusive r) s
