-- ===== src/Race/Tasks/Tests.antt =====
-- HappyEyeballs.cpp: a race whose parent sleeps while a resolver finds two addresses.
use uvent.Common.{
  some, ℕ, ◌+◌, ◌≤◌, ◌≡◌, ◌⊎◌, refl, true, false, List, [], ◌∷◌, arith, length, take, max,
}
use uvent.Race.{
  launch_next, HeState, happy_start, decided, await_suspend, weave_tail, weave, push_below, cap_of,
}
use uvent.Race.Weave.{Begins, weave_tail-Begins}
use uvent.Race.Tasks.{
  connect_happy_addrs, first_launched, Parent, Tasks, Runs, done, next, ready_step, suspend_step,
  resolve_step, connect_happy, ready, suspend, resolve,
}
use uvent.Race.Tasks.Sound.{IsSound}
use uvent.Race.Tasks.Reach.{reachable-IsSound, reachable-IsAlive}

abbrev asleep : Tasks ℕ ℕ ℕ
asleep = suspend (ready (connect_happy 3))

abbrev found : List ℕ
found = 46 ∷ 47 ∷ []

to_asleep : Runs (connect_happy 3) asleep
unfolding ready decided
to_asleep = next (next (done _) (ready_step _ refl)) (suspend_step _ refl)

asleep-waits : asleep.parent ≡ Parent.waiting
unfolding ready suspend await_suspend decided
asleep-waits = refl

to_resolved : Runs (connect_happy 3) (resolve 1 false found asleep)
unfolding ready suspend await_suspend decided
to_resolved = next to_asleep (resolve_step 1 false found _ refl)

reachable-IsSound_example : IsSound (resolve 1 false found asleep)
reachable-IsSound_example = reachable-IsSound 3 to_resolved

reachable-IsAlive_example :
    (asleep.pacer ≡ true) ⊎ (1 ≤ asleep.starting + asleep.connecting + asleep.resolvers)
reachable-IsAlive_example = reachable-IsAlive 3 to_asleep asleep-waits

-- One address is launched, and the limit is three.
abbrev racing : HeState ℕ ℕ ℕ
racing = record (happy_start {A = ℕ} {S = ℕ} {E = ℕ} 3) {
  addrs = 41 ∷ 42 ∷ [];
  next_idx = 1;
  resolves_pending = 1;
}

weave_run : (weave_tail racing (61 ∷ 62 ∷ []) true).addrs ≡ 41 ∷ 61 ∷ 42 ∷ []
unfolding weave_tail weave push_below cap_of
weave_run = refl

weave_tail-Begins_example :
    Begins (take racing.next_idx racing.addrs) (weave_tail racing (61 ∷ 62 ∷ []) true).addrs
    × (length (weave_tail racing (61 ∷ 62 ∷ []) true).addrs
        ≤ max racing.max_attempts racing.next_idx)
weave_tail-Begins_example = weave_tail-Begins racing (61 ∷ 62 ∷ []) true (omega arith)

abbrev two_left : Tasks ℕ ℕ ℕ
two_left = first_launched 2 7 (8 ∷ [])

connect_happy_addrs-two_left :
    connect_happy_addrs {A = ℕ} {S = ℕ} {E = ℕ} (7 ∷ 8 ∷ 9 ∷ []) 2 ≡ some two_left
unfolding connect_happy_addrs
connect_happy_addrs-two_left = refl

abbrev two_asleep : Tasks ℕ ℕ ℕ
two_asleep = suspend (ready two_left)

to_two_asleep : Runs two_left two_asleep
unfolding ready decided launch_next
to_two_asleep = next (next (done _) (ready_step _ refl)) (suspend_step _ refl)

two_asleep-waits : two_asleep.parent ≡ Parent.waiting
unfolding ready suspend await_suspend decided launch_next
two_asleep-waits = refl
