-- ===== src/Barrier/Tests.antt =====
-- AsyncBarrier.h: three parties.
use uvent.Common.{◌≡◌, refl, false, [], ◌∷◌, arith}
use uvent.Barrier.{arrive, arrive_all, new_barrier}
use uvent.Barrier.Round.{arrive-IsRound}

arrive-IsRound_example :
    arrive (arrive_all (new_barrier 3) (8 ∷ 7 ∷ [])) 9
    ≡ record { suspends = false; resumed = 8 ∷ 7 ∷ []; barrier = new_barrier 3 }
arrive-IsRound_example = arrive-IsRound 3 9 (8 ∷ 7 ∷ []) refl (omega arith)
