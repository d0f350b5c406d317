-- ===== src/Reclaim/Orphans.antt =====
-- QSBR: the thread 0 scans; behind its scan the reader 1 enters and the thread 2 retires a pointer, the
-- thread 3 advances the epoch, and the thread 2 detaches.
use uvent.Common.{◌≡◌, refl, inr, arith, true, false, ◌==◌, if◌then◌else◌, [], ◌∷◌}
use uvent.Common.Memory.{update}
use uvent.Reclaim.{
  no_epoch, set_in_use, set_active, attach_new, enter_epoch, retire, smaller, scan_result, bump,
  sweep, orphan, adopt,
}
use uvent.Reclaim.Steps.{
  resting, entering, leaving, orphaned, bumping, first_scan, first_read, second_scan, compared,
  sweeping, adopting, World, go, let_go, new_step, enter_step, active_step, retire_step,
  detach_step, orphan_step, tick_step, first_skip, first_see, first_take, first_end, same_step,
  bump_step, second_skip, second_end, sweep_step, Runs, done, next, start,
}

abbrev race1 : World
race1 = go start.qsbr.size resting (attach_new start.qsbr) start

abbrev race2 : World
race2 = go race1.qsbr.size resting (attach_new race1.qsbr) race1

abbrev race3 : World
race3 = go race2.qsbr.size resting (attach_new race2.qsbr) race2

abbrev race4 : World
race4 = go race3.qsbr.size resting (attach_new race3.qsbr) race3

abbrev race5 : World
race5 = go 0 (first_scan race4.qsbr.size no_epoch) race4.qsbr race4

abbrev race6 : World
race6 = go 0 (first_scan 3 no_epoch) race5.qsbr race5

abbrev race7 : World
race7 = go 0 (first_scan 2 no_epoch) race6.qsbr race6

abbrev race8 : World
race8 = go 0 (first_scan 1 no_epoch) race7.qsbr race7

abbrev race9 : World
race9 = go 0 (first_scan 0 no_epoch) race8.qsbr race8

abbrev race10 : World
race10 = go 0 (compared (scan_result no_epoch race9.qsbr)) race9.qsbr race9

abbrev race11 : World
race11 = go 0 bumping race10.qsbr race10

abbrev race12 : World
race12 = go 0 (second_scan race11.qsbr.size no_epoch) (bump race11.qsbr) race11

abbrev race13 : World
race13 = go 0 (second_scan 3 no_epoch) race12.qsbr race12

abbrev race14 : World
race14 = go 0 (second_scan 2 no_epoch) race13.qsbr race13

abbrev race15 : World
race15 = go 0 (second_scan 1 no_epoch) race14.qsbr race14

abbrev race16 : World
race16 = go 1 entering (enter_epoch 1 race15.qsbr) race15

abbrev race17 : World
race17 = go 1 resting (set_active 1 true race16.qsbr) race16

abbrev race18 : World
race18 = record race17 {
  retired = update race17.retired 2 (retire 9 race17.qsbr (race17.retired 2));
  holds = λ j q. if q == 9 then (race17.qsbr.states j).active else race17.holds j q;
}

abbrev race19 : World
race19 = go 3 (first_scan race18.qsbr.size no_epoch) race18.qsbr race18

abbrev race20 : World
race20 = go 3 (first_scan 3 no_epoch) race19.qsbr race19

abbrev race21 : World
race21 = go 3 (first_scan 2 no_epoch) race20.qsbr race20

abbrev race22 : World
race22 = go 3 (first_read 1 no_epoch) race21.qsbr race21

abbrev race23 : World
race23 = go 3 (first_scan 1 (smaller (race22.qsbr.states 1).epoch no_epoch)) race22.qsbr race22

abbrev race24 : World
race24 = go 3 (first_scan 0 2) race23.qsbr race23

abbrev race25 : World
race25 = go 3 (compared (scan_result 2 race24.qsbr)) race24.qsbr race24

abbrev race26 : World
race26 = go 3 bumping race25.qsbr race25

abbrev race27 : World
race27 = go 3 (second_scan race26.qsbr.size no_epoch) (bump race26.qsbr) race26

abbrev race28 : World
race28 = let_go 2 (go 2 leaving (set_active 2 false race27.qsbr) race27)

abbrev race29 : World
race29 = record (go 2 orphaned (orphan (race28.retired 2) race28.qsbr) race28) {
  retired = update race28.retired 2 [];
}

abbrev race30 : World
race30 = go 0 (second_scan 0 no_epoch) race29.qsbr race29

abbrev race31 : World
race31 = go 0 (sweeping (scan_result no_epoch race30.qsbr)) race30.qsbr race30

abbrev race32 : World
race32 = record (go 0 (adopting 3) race31.qsbr race31) {
  retired = update race31.retired 0 (sweep 3 (race31.retired 0)).1;
}

to_race9 : Runs start race9
unfolding set_in_use set_active attach_new enter_epoch retire smaller scan_result bump sweep orphan
    adopt
to_race9 =
    next
      (next
        (next
          (next
            (next
              (next
                (next (next (next (done start) (new_step start refl)) (new_step race1 refl))
                  (new_step race2 refl))
                (new_step race3 refl))
              (tick_step 0 race4 refl))
            (first_skip 0 3 no_epoch race5 refl (inr refl)))
          (first_skip 0 2 no_epoch race6 refl (inr refl)))
        (first_skip 0 1 no_epoch race7 refl (inr refl)))
      (first_skip 0 0 no_epoch race8 refl (inr refl))

to_race18 : Runs start race18
unfolding set_in_use set_active attach_new enter_epoch retire smaller scan_result bump sweep orphan
    adopt
to_race18 =
    next
      (next
        (next
          (next
            (next
              (next
                (next
                  (next (next (to_race9) (first_end 0 no_epoch race9 refl))
                    (same_step 0 1 race10 refl refl))
                  (bump_step 0 race11 refl (omega arith)))
                (second_skip 0 3 no_epoch race12 refl (inr refl)))
              (second_skip 0 2 no_epoch race13 refl (inr refl)))
            (second_skip 0 1 no_epoch race14 refl (inr refl)))
          (enter_step 1 race15 refl refl))
        (active_step 1 race16 refl))
      (retire_step 2 9 race17 refl (λ j r h. elim h [ ]))

to_race27 : Runs start race27
unfolding set_in_use set_active attach_new enter_epoch retire smaller scan_result bump sweep orphan
    adopt
to_race27 =
    next
      (next
        (next
          (next
            (next
              (next
                (next
                  (next (next (to_race18) (tick_step 3 race18 refl))
                    (first_skip 3 3 no_epoch race19 refl (inr refl)))
                  (first_skip 3 2 no_epoch race20 refl (inr refl)))
                (first_see 3 1 no_epoch race21 refl refl))
              (first_take 3 1 no_epoch race22 refl))
            (first_skip 3 0 2 race23 refl (inr refl)))
          (first_end 3 2 race24 refl))
        (same_step 3 2 race25 refl refl))
      (bump_step 3 race26 refl (omega arith))

to_race32 : Runs start race32
unfolding set_in_use set_active attach_new enter_epoch retire smaller scan_result bump sweep orphan
    adopt
to_race32 =
    next
      (next
        (next (next (next (to_race27) (detach_step 2 race27 refl)) (orphan_step 2 race28 refl))
          (second_skip 0 0 no_epoch race29 refl (inr refl)))
        (second_end 0 no_epoch race30 refl))
      (sweep_step 0 3 race31 refl)

-- A tick frees an adopted pointer that a reader holds.
orphan_held :
    ((adopt 3 race32.qsbr).0 ≡ record { p = 9; epoch = 2 } ∷ [])
    × (race32.phase 0 ≡ adopting 3)
    × (race32.holds 1 9 ≡ true)
unfolding set_in_use set_active attach_new enter_epoch retire smaller scan_result bump sweep orphan
    adopt
orphan_held = (refl, refl, refl)
