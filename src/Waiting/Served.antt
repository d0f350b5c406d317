-- ===== src/Waiting/Served.antt =====
-- Wait.h: a condition on a primitive's state and on how many coroutines sleep, were woken or are due,
-- which every step of the coroutines and wakers keeps if the primitive keeps it.
use uvent.Common.{
  ℕ, suc, ◌+◌, ◌-◌, ◌≤◌, ◌≡◌, refl, subst, ap, ◌∙◌, arith, Bool, true, false, List, [], ◌∷◌, ◌++◌,
  length, inl, inr,
}
use uvent.Waiting.{
  pushed, refused, arming, parked, Node, Wake, nobody, everybody, at_most, Gate, World, start_wake,
  attached, Step, Runs, start, try_step, push_step, attach_step, arm_step, detach_step, retry_step,
  run_step, wake_step, stop_step, sweep_step, end_sweep_step, done, next,
}
use uvent.Waiting.Load.{
  asleep, sum, Load, load, sleeps-bound, asleep-mid, asleep-push, length-mid, sum-mid,
}

-- What a waker adds.
abbrev pub started : Wake → Load → Load
started nobody l = l
started (at_most k) l = record l { due = k + l.due }
started everybody l = record l { sweeps = l.sweeps + 1 }

-- A condition `P` that the primitive keeps.
pub record IsServing (G : Gate) (P : G.State → Load → Type 0) : Type 0 where
  -- Fewer sleep, with no other change.
  pub rests :
      (s : G.State) (l : Load) (a : ℕ) → a ≤ l.sleeping → P s l → P s (record l { sleeping = a })
  -- One more sleeps when `attach` lets it.
  pub sleeps_on :
      (s : G.State) (l : Load) (a : ℕ)
      → G.attach_blocks s ≡ true
      → a ≤ suc l.sleeping
      → P s l
      → P s (record l { sleeping = a })
  -- A newcomer tries, and a woken coroutine tries again.
  pub tries : (s : G.State) (l : Load) → P s l → P (G.try_complete s).1 l
  pub retries :
      (s : G.State) (l : Load) (n : ℕ)
      → l.woken ≡ suc n
      → P s l
      → P (G.try_complete s).1 (record l { woken = n })
  pub runs :
      (op : G.Action) (s : G.State) (l : Load)
      → G.Allowed op s
      → P s l
      → P (G.run op s).1 (started (G.run op s).0 l)
  -- At most one that sleeps is woken, by a waker that had it due or by a sweep.
  pub wakes :
      (s : G.State) (l : Load) (a d : ℕ)
      → l.sleeping ≤ suc a
      → a ≤ l.sleeping
      → l.due ≡ suc d
      → P s l
      → P s (record l { sleeping = a; woken = suc l.woken; due = d })
  pub sweeps_one :
      (s : G.State) (l : Load) (a : ℕ)
      → l.sleeping ≤ suc a
      → a ≤ l.sleeping
      → P s l
      → P s (record l { sleeping = a; woken = suc l.woken })
  -- Wakers end early when nobody sleeps.
  pub stops : (s : G.State) (l : Load) (d : ℕ) → l.sleeping ≡ 0 → P s l → P s (record l { due = d })
  pub ends :
      (s : G.State) (l : Load) (n : ℕ) → l.sleeping ≡ 0 → P s l → P s (record l { sweeps = n })

module _ (G : Gate) (P : G.State → Load → Type 0) (L : IsServing G P) where
  -- The condition at a world.
  abbrev Holds : World G.State → Type 0
  Holds w = P w.state (load w)

  start_wake-Holds :
      (c : Wake × G.State) (w : World G.State)
      → P c.1 (started c.0 (load w))
      → Holds (start_wake c w)
  start_wake-Holds (nobody, s) w p = p
  start_wake-Holds (at_most k, s) w p = p
  start_wake-Holds (everybody, s) w p = p

  attach-Holds :
      (f : ℕ) (before after : List Node) (w : World G.State) (b : Bool)
      → G.attach_blocks w.state ≡ b
      → w.nodes ≡ before ++ record { frame = f; stage = pushed } ∷ after
      → Holds w
      → Holds (record w { nodes = before ++ record { frame = f; stage = attached b } ∷ after })
  attach-Holds f before after w true b h p =
      L.sleeps_on w.state (load w) (asleep (before ++ record { frame = f; stage = arming } ∷ after))
        b
        (omega (
          arith,
          ap asleep h,
          asleep-mid before after (record { frame = f; stage = pushed }),
          asleep-mid before after (record { frame = f; stage = arming }),
        ))
        p
  attach-Holds f before after w false b h p =
      L.rests w.state (load w) (asleep (before ++ record { frame = f; stage = refused } ∷ after))
        (omega (
          arith,
          ap asleep h,
          asleep-mid before after (record { frame = f; stage = pushed }),
          asleep-mid before after (record { frame = f; stage = refused }),
        ))
        p

  Step-Holds : {v w : World G.State} → Holds v → Step G v w → Holds w
  Step-Holds p (try_step w) = L.tries w.state (load w) p
  Step-Holds p (push_step f w) =
      L.rests w.state (load w) (asleep (w.nodes ++ record { frame = f; stage = pushed } ∷ []))
        (omega (arith, asleep-push w.nodes f)) p
  Step-Holds p (attach_step f before after w e) =
      attach-Holds f before after w (G.attach_blocks w.state) refl e p
  Step-Holds p (arm_step f before after w e) =
      L.rests w.state (load w) (asleep (before ++ record { frame = f; stage = parked } ∷ after))
        (omega (
          arith,
          ap asleep e,
          asleep-mid before after (record { frame = f; stage = arming }),
          asleep-mid before after (record { frame = f; stage = parked }),
        ))
        p
  Step-Holds p (detach_step n before after w d e) =
      L.rests w.state (load w) (asleep (before ++ after))
        (omega (arith, ap asleep e, asleep-mid before after n)) p
  Step-Holds p (retry_step f before after w e) =
      L.retries w.state (load w) (length (before ++ after))
        (ap length e ∙ length-mid before after f) p
  Step-Holds p (run_step op w a) =
      start_wake-Holds (G.run op w.state) w (L.runs op w.state (load w) a p)
  Step-Holds p (wake_step k before after n rest w e h) =
      L.wakes w.state (load w) (asleep rest) (sum (before ++ k ∷ after))
        (omega (arith, ap asleep h, sleeps-bound n.stage)) (omega (arith, ap asleep h))
        (omega (arith, ap sum e, sum-mid before after (suc k), sum-mid before after k)) p
  Step-Holds p (stop_step k before after w e (inl z)) =
      let due : sum w.budgets ≡ sum (before ++ after) =
        omega (arith, ap sum e, sum-mid before after k, z) in
      subst (λ d. P w.state (record (load w) { due = d })) due p
  Step-Holds p (stop_step k before after w e (inr h)) =
      L.stops w.state (load w) (sum (before ++ after)) (ap asleep h) p
  Step-Holds p (sweep_step n rest w c h) =
      L.sweeps_one w.state (load w) (asleep rest) (omega (arith, ap asleep h, sleeps-bound n.stage))
        (omega (arith, ap asleep h)) p
  Step-Holds p (end_sweep_step w c h) = L.ends w.state (load w) (w.sweeps - 1) (ap asleep h) p

  -- A condition that the primitive keeps and that holds of a state alone holds in every world that is
  -- reached from that state.
  pub reachable-Served :
      {s : G.State} {w : World G.State} → P s (load (start s)) → Runs G (start s) w → Holds w
  reachable-Served p (done _) = p
  reachable-Served p (next r t) = Step-Holds (reachable-Served p r) t
