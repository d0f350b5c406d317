-- ===== src/Barrier/Round.antt =====
-- AsyncBarrier.h: a round of a barrier.
use uvent.Common.{
  ℕ, suc, ◌+◌, ◌^◌, ◌<◌, ◌≡◌, refl, ap, ◌∙◌, true, false, List, [], ◌∷◌, length, ◌==◌, ==_iff,
  arith,
}
use uvent.Common.Bits.{u64}
use uvent.Barrier.{AsyncBarrier, arrive, arrive_all, new_barrier}

-- An arrival before the last suspends, and the last one does not.
waits_lem :
    (b : AsyncBarrier) (h : ℕ)
    → b.arrived + 1 < b.parties
    → b.parties < 2 ^ 64
    → arrive b h ≡ record {
      suspends = true;
      resumed = [];
      barrier = record b { arrived = b.arrived + 1; waiters = h ∷ b.waiters };
    }
unfolding arrive
waits_lem b h p q =
    let n : u64 (b.arrived + 1) ≡ b.arrived + 1 = omega (arith, p, q) in
    let early : (b.arrived + 1 == b.parties) ≡ false = ground (arith, p) in rw (n, early) refl

releases_lem :
    (b : AsyncBarrier) (h : ℕ)
    → b.arrived + 1 ≡ b.parties
    → b.parties < 2 ^ 64
    → arrive b h ≡ record {
      suspends = false;
      resumed = b.waiters;
      barrier = record b { arrived = 0; waiters = [] };
    }
unfolding arrive
releases_lem b h p q =
    let n : u64 (b.arrived + 1) ≡ b.arrived + 1 = omega (arith, p, q) in
    let last : (b.arrived + 1 == b.parties) ≡ true = (==_iff (b.arrived + 1) b.parties).1 p in
    rw (n, last) refl

plus_one : (n : ℕ) → n + 1 ≡ suc n
plus_one n = omega arith

-- Fewer arrivals than parties all wait.
gathers :
    (parties : ℕ) (hs : List ℕ)
    → length hs < parties
    → parties < 2 ^ 64
    → arrive_all (new_barrier parties) hs
      ≡ record { parties = parties; arrived = length hs; waiters = hs }
unfolding arrive_all
gathers parties [] p q = refl
gathers parties (h ∷ hs) p q =
    let b : AsyncBarrier = record { parties = parties; arrived = length hs; waiters = hs } in
    ap (λ c. (arrive c h).barrier) (gathers parties hs (omega arith) q)
    ∙ ap (λ a. a.barrier) (waits_lem b h (omega arith) q)
    ∙ ap (λ n. record { parties = parties; arrived = n; waiters = h ∷ hs }) (plus_one (length hs))

-- When as many coroutines as there are parties arrive at a new barrier of fewer than `2^64` parties,
-- the last one does not suspend, it resumes all others, the newest first, and the barrier is as new.
pub arrive-IsRound :
    (parties : ℕ) (h : ℕ) (hs : List ℕ)
    → length (h ∷ hs) ≡ parties
    → parties < 2 ^ 64
    → arrive (arrive_all (new_barrier parties) hs) h
      ≡ record { suspends = false; resumed = hs; barrier = new_barrier parties }
arrive-IsRound parties h hs p q =
    let b : AsyncBarrier = record { parties = parties; arrived = length hs; waiters = hs } in
    ap (λ c. arrive c h) (gathers parties hs (omega (arith, p)) q)
    ∙ releases_lem b h (omega (arith, p)) q
