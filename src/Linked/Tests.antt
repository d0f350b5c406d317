-- ===== src/Linked/Tests.antt =====
-- The list of waiters: two waiters are pushed, and the first one is removed.
use uvent.Common.{ℕ, ◌≡◌, arith, true, false, List, [], ◌∷◌, In, inl, inr, refl}
use uvent.Linked.{WaitList, unlinked, push_locked}
use uvent.Linked.Refine.{IsList}
use uvent.Linked.Steps.{push, remove, in_memory, on_list, in_memory-IsList}

abbrev no_waiters : WaitList
no_waiters = record { head = 0; tail = 0; count = 0; waiters = λ a. unlinked }

no_waiters-IsList : IsList no_waiters []
no_waiters-IsList = record {
  head_is = refl;
  tail_is = refl;
  count_is = refl;
  chain = tt;
  distinct = tt;
  others = λ a e. absurd (unequal e);
}
  where
    unequal : false ≡ true → ⊥
    unequal e = cc

abbrev one_waiter : List ℕ
one_waiter = 7 ∷ []

abbrev two_waiters : List ℕ
two_waiters = 7 ∷ 9 ∷ []

abbrev pushed : WaitList
pushed = push_locked 9 (push_locked 7 no_waiters)

pushed-IsList : IsList pushed two_waiters
pushed-IsList =
    let first =
      (in_memory-IsList (push 7) no_waiters [] no_waiters-IsList
        (λ e. omega (arith, e), λ h. elim h [ ])).1 in
    (in_memory-IsList (push 9) (push_locked 7 no_waiters) one_waiter first
      (λ e. omega (arith, e), λ h. other h)).1
  where
    other : In 9 one_waiter → ⊥
    other (inl e) = omega (arith, e)
    other (inr h) = elim h [ ]

in_memory-IsList_example :
    ((in_memory (remove 7) pushed).0 ≡ (on_list (remove 7) two_waiters).0)
    × IsList (in_memory (remove 7) pushed).1 (on_list (remove 7) two_waiters).1
in_memory-IsList_example = in_memory-IsList (remove 7) pushed two_waiters pushed-IsList tt
