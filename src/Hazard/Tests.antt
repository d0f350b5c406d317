-- ===== src/Hazard/Tests.antt =====
-- Hazard pointers: the thread 0 has a pointer in a slot, which the thread 1 retires with another one.
use uvent.Common.{ℕ, ◌+◌, ◌≢◌, refl, inl, arith, [], ◌∷◌, ◌++◌}
use uvent.Common.Memory.{update}
use uvent.Hazard.{set_active, add_record, publish, clear_slots, collect, reclaim}
use uvent.Hazard.Steps.{
  resting, loaded, published, choosing, reading, World, go, sees, forgets, new_step, load_step,
  publish_step, same_step, write_step, retire_step, scan_step, open_step, slot_step, close_step,
  Runs, done, next, start,
}
use uvent.Hazard.Safe.{reclaim-unheld}

abbrev zeros : ℕ → ℕ
zeros c = 0

abbrev first_world : World
first_world = start (update zeros 0 9)

abbrev turn1 : World
turn1 = go first_world.domain.size resting (add_record first_world.domain) first_world

abbrev turn2 : World
turn2 = go turn1.domain.size resting (add_record turn1.domain) turn1

abbrev turn3 : World
turn3 = sees 0 (turn2.cells 0) (go 0 (loaded 0 (turn2.cells 0)) turn2.domain turn2)

abbrev turn4 : World
turn4 =
    forgets 0 (turn3.domain.records 0).victim
      (go 0 (published 0 9) (publish 0 9 turn3.domain) turn3)

abbrev turn5 : World
turn5 = sees 0 (turn4.cells 0) (go 0 resting turn4.domain turn4)

abbrev turn6 : World
turn6 = record turn5 { cells = update turn5.cells 0 5 }

abbrev turn7 : World
turn7 = record turn6 { retired = update turn6.retired 1 (turn6.retired 1 ++ 8 ∷ []) }

abbrev turn8 : World
turn8 = record turn7 { retired = update turn7.retired 1 (turn7.retired 1 ++ 9 ∷ []) }

abbrev turn9 : World
turn9 = go 1 (choosing turn8.domain.size []) turn8.domain turn8

abbrev turn10 : World
turn10 = go 1 (reading 1 0 ([])) turn9.domain turn9

abbrev turn11 : World
turn11 =
    go 1 (reading 1 (0 + 1) (collect ((turn10.domain.records 1).hp 0) ([]))) turn10.domain turn10

abbrev turn12 : World
turn12 =
    go 1 (reading 1 (1 + 1) (collect ((turn11.domain.records 1).hp 1) ([]))) turn11.domain turn11

abbrev turn13 : World
turn13 =
    go 1 (reading 1 (2 + 1) (collect ((turn12.domain.records 1).hp 2) ([]))) turn12.domain turn12

abbrev turn14 : World
turn14 =
    go 1 (reading 1 (3 + 1) (collect ((turn13.domain.records 1).hp 3) ([]))) turn13.domain turn13

abbrev turn15 : World
turn15 =
    go 1 (reading 1 (4 + 1) (collect ((turn14.domain.records 1).hp 4) ([]))) turn14.domain turn14

abbrev turn16 : World
turn16 =
    go 1 (reading 1 (5 + 1) (collect ((turn15.domain.records 1).hp 5) ([]))) turn15.domain turn15

abbrev turn17 : World
turn17 =
    go 1 (reading 1 (6 + 1) (collect ((turn16.domain.records 1).hp 6) ([]))) turn16.domain turn16

abbrev turn18 : World
turn18 =
    go 1 (reading 1 (7 + 1) (collect ((turn17.domain.records 1).hp 7) ([]))) turn17.domain turn17

abbrev turn19 : World
turn19 = go 1 (choosing 1 ([])) turn18.domain turn18

abbrev turn20 : World
turn20 = go 1 (reading 0 0 ([])) turn19.domain turn19

abbrev turn21 : World
turn21 =
    go 1 (reading 0 (0 + 1) (collect ((turn20.domain.records 0).hp 0) ([]))) turn20.domain turn20

abbrev turn22 : World
turn22 =
    go 1 (reading 0 (1 + 1) (collect ((turn21.domain.records 0).hp 1) (9 ∷ []))) turn21.domain
      turn21

abbrev turn23 : World
turn23 =
    go 1 (reading 0 (2 + 1) (collect ((turn22.domain.records 0).hp 2) (9 ∷ []))) turn22.domain
      turn22

abbrev turn24 : World
turn24 =
    go 1 (reading 0 (3 + 1) (collect ((turn23.domain.records 0).hp 3) (9 ∷ []))) turn23.domain
      turn23

abbrev turn25 : World
turn25 =
    go 1 (reading 0 (4 + 1) (collect ((turn24.domain.records 0).hp 4) (9 ∷ []))) turn24.domain
      turn24

abbrev turn26 : World
turn26 =
    go 1 (reading 0 (5 + 1) (collect ((turn25.domain.records 0).hp 5) (9 ∷ []))) turn25.domain
      turn25

abbrev turn27 : World
turn27 =
    go 1 (reading 0 (6 + 1) (collect ((turn26.domain.records 0).hp 6) (9 ∷ []))) turn26.domain
      turn26

abbrev turn28 : World
turn28 =
    go 1 (reading 0 (7 + 1) (collect ((turn27.domain.records 0).hp 7) (9 ∷ []))) turn27.domain
      turn27

abbrev turn29 : World
turn29 = go 1 (choosing 0 (9 ∷ [])) turn28.domain turn28

to_turn8 : Runs first_world turn8
unfolding set_active add_record publish clear_slots collect reclaim
to_turn8 =
    next
      (next
        (next
          (next
            (next
              (next
                (next (next (done first_world) (new_step first_world refl)) (new_step turn1 refl))
                (load_step 0 0 turn2 refl))
              (publish_step 0 0 9 turn3 refl (λ e. omega (arith, e)) (λ s l e. omega (arith, e))))
            (same_step 0 0 9 turn4 refl refl))
          (write_step 0 5 turn5 (λ i h. elim h [ ])))
        (retire_step 1 8 turn6 refl (λ e. omega (arith, e)) (λ c e. ground (arith, e))))
      (retire_step 1 9 turn7 refl (λ e. omega (arith, e)) (λ c e. ground (arith, e)))

to_turn16 : Runs first_world turn16
unfolding set_active add_record publish clear_slots collect reclaim
to_turn16 =
    next
      (next
        (next
          (next
            (next
              (next
                (next (next (to_turn8) (scan_step 1 turn8 refl))
                  (open_step 1 1 ([]) turn9 refl refl))
                (slot_step 1 1 0 ([]) turn10 refl (omega arith)))
              (slot_step 1 1 1 ([]) turn11 refl (omega arith)))
            (slot_step 1 1 2 ([]) turn12 refl (omega arith)))
          (slot_step 1 1 3 ([]) turn13 refl (omega arith)))
        (slot_step 1 1 4 ([]) turn14 refl (omega arith)))
      (slot_step 1 1 5 ([]) turn15 refl (omega arith))

to_turn24 : Runs first_world turn24
unfolding set_active add_record publish clear_slots collect reclaim
to_turn24 =
    next
      (next
        (next
          (next
            (next
              (next
                (next (next (to_turn16) (slot_step 1 1 6 ([]) turn16 refl (omega arith)))
                  (slot_step 1 1 7 ([]) turn17 refl (omega arith)))
                (close_step 1 1 ([]) turn18 refl))
              (open_step 1 0 ([]) turn19 refl refl))
            (slot_step 1 0 0 ([]) turn20 refl (omega arith)))
          (slot_step 1 0 1 (9 ∷ []) turn21 refl (omega arith)))
        (slot_step 1 0 2 (9 ∷ []) turn22 refl (omega arith)))
      (slot_step 1 0 3 (9 ∷ []) turn23 refl (omega arith))

to_turn29 : Runs first_world turn29
unfolding set_active add_record publish clear_slots collect reclaim
to_turn29 =
    next
      (next
        (next
          (next (next (to_turn24) (slot_step 1 0 4 (9 ∷ []) turn24 refl (omega arith)))
            (slot_step 1 0 5 (9 ∷ []) turn25 refl (omega arith)))
          (slot_step 1 0 6 (9 ∷ []) turn26 refl (omega arith)))
        (slot_step 1 0 7 (9 ∷ []) turn27 refl (omega arith)))
      (close_step 1 0 (9 ∷ []) turn28 refl)

reclaim-unheld_example : (turn29.domain.records 0).hp 0 ≢ 8
unfolding set_active add_record publish clear_slots collect reclaim
reclaim-unheld_example = reclaim-unheld 1 8 0 0 (9 ∷ []) to_turn29 refl (inl refl) refl
