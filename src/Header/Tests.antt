-- ===== src/Header/Tests.antt =====
-- RefCountedSession.h and SocketMetadata.h at concrete words.
use uvent.Common.{false, ℕ, ◌+◌, ◌/◌, ◌%◌, ◌^◌, ◌≡◌, ◌==◌, false, not, arith}
use uvent.Header.{close_for_new_refs, try_mark_busy, is_disconnected_now, try_add_ref, release}
use uvent.Header.Flags.{IsMarked, try_mark_busy-IsMarked}
use uvent.Header.Epoch.{bumps, bumps-Disconnects}
use uvent.Header.Refs.{
  Session, Runs, done, next, try_step, release_step, flag_step, FlagOp, start, IsAccounted,
  reachable-IsAccounted, run_flag,
}

-- Two references, and a flag that is being read.
abbrev two_refs : ℕ
two_refs = 2 ^ 61 + 2

try_mark_busy-IsMarked_example : IsMarked false two_refs (try_mark_busy two_refs)
try_mark_busy-IsMarked_example = try_mark_busy-IsMarked two_refs (omega arith)

bumps-Disconnects_example :
    is_disconnected_now (bumps 524288 1) ≡ not (◌==◌ (524288 / 2 ^ 19 % 2) 0)
bumps-Disconnects_example = bumps-Disconnects 524288 1 (omega arith)

abbrev shared : Session
shared = record { word = 2 ^ 63 + 1; refs = 1; destroyed = false }

to_shared : Runs start shared
unfolding try_add_ref release run_flag close_for_new_refs
to_shared =
    next (next (next (done _) (try_step _ (omega arith))) (release_step _ (omega arith)))
      (flag_step FlagOp.close _ (omega arith))

reachable-IsAccounted_example : IsAccounted shared
reachable-IsAccounted_example = reachable-IsAccounted to_shared
