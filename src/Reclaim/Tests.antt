-- ===== src/Reclaim/Tests.antt =====
-- QSBR: a thread alone retires a pointer, ticks and frees it.
use uvent.Common.{◌≡◌, refl, inl, inr, arith, false, ◌==◌, if◌then◌else◌}
use uvent.Common.Memory.{update}
use uvent.Reclaim.{
  no_epoch, set_in_use, set_active, attach_new, enter_epoch, retire, smaller, scan_result, bump,
  sweep, orphan, adopt,
}
use uvent.Reclaim.Steps.{
  resting, bumping, first_scan, second_scan, compared, sweeping, World, go, new_step, retire_step,
  tick_step, first_skip, first_end, same_step, bump_step, second_skip, second_end, Runs, done, next,
  start,
}
use uvent.Reclaim.Safe.{sweep-unheld}

abbrev turn1 : World
turn1 = go start.qsbr.size resting (attach_new start.qsbr) start

abbrev turn2 : World
turn2 = record turn1 {
  retired = update turn1.retired 0 (retire 9 turn1.qsbr (turn1.retired 0));
  holds = λ j q. if q == 9 then (turn1.qsbr.states j).active else turn1.holds j q;
}

abbrev turn3 : World
turn3 = go 0 (first_scan turn2.qsbr.size no_epoch) turn2.qsbr turn2

abbrev turn4 : World
turn4 = go 0 (first_scan 0 no_epoch) turn3.qsbr turn3

abbrev turn5 : World
turn5 = go 0 (compared (scan_result no_epoch turn4.qsbr)) turn4.qsbr turn4

abbrev turn6 : World
turn6 = go 0 bumping turn5.qsbr turn5

abbrev turn7 : World
turn7 = go 0 (second_scan turn6.qsbr.size no_epoch) (bump turn6.qsbr) turn6

abbrev turn8 : World
turn8 = go 0 (second_scan 0 no_epoch) turn7.qsbr turn7

abbrev turn9 : World
turn9 = go 0 (sweeping (scan_result no_epoch turn8.qsbr)) turn8.qsbr turn8

to_turn9 : Runs start turn9
unfolding set_in_use set_active attach_new enter_epoch retire smaller scan_result bump sweep orphan
    adopt
to_turn9 =
    next
      (next
        (next
          (next
            (next
              (next
                (next
                  (next (next (done start) (new_step start refl))
                    (retire_step 0 9 turn1 refl (λ j r h. elim h [ ])))
                  (tick_step 0 turn2 refl))
                (first_skip 0 0 no_epoch turn3 refl (inr refl)))
              (first_end 0 no_epoch turn4 refl))
            (same_step 0 1 turn5 refl refl))
          (bump_step 0 turn6 refl (omega arith)))
        (second_skip 0 0 no_epoch turn7 refl (inr refl)))
      (second_end 0 no_epoch turn8 refl)

sweep-unheld_example : turn9.holds 0 9 ≡ false
unfolding set_in_use set_active attach_new enter_epoch retire smaller scan_result bump sweep orphan
    adopt
sweep-unheld_example = sweep-unheld 0 2 (record { p = 9; epoch = 1 }) to_turn9 refl (inl refl) 0
