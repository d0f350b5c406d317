-- ===== src/Waiting/Group.antt =====
-- include/uvent/sync/AsyncWaitGroup.h, as a primitive that coroutines wait for. `add` is called with no
-- negative number, and `done` for a count that is positive.
use uvent.Common.{ℕ, ◌+◌, ◌-◌, ◌^◌, ◌≤◌, ◌<◌, ◌==◌, Bool, not, if◌then◌else◌}
use uvent.Waiting.{Wake, nobody, everybody, Gate}

-- `WaitOp::try_complete` on `cnt_`
unfoldable pub try_wait : ℕ → Bool × ℕ
try_wait cnt = (cnt == 0, cnt)

-- `WaitOp::attach` after it has pushed the waiter: whether it returns true.
unfoldable pub group_blocks : ℕ → Bool
group_blocks cnt = not (cnt == 0)

unfoldable pub add : ℕ → ℕ → Wake × ℕ
add n cnt = (nobody, cnt + n)

-- `done` up to its loop
unfoldable pub done_one : ℕ → Wake × ℕ
done_one cnt = if cnt == 1 then (everybody, cnt - 1) else (nobody, cnt - 1)

pub data GroupOp : Type 0 where
  add_op : ℕ → GroupOp
  done_op : GroupOp

-- `cnt_` is an `int`.
abbrev pub GroupAllowed : GroupOp → ℕ → Type 0
GroupAllowed (add_op n) cnt = cnt + n < 2 ^ 31
GroupAllowed done_op cnt = 1 ≤ cnt

abbrev pub run_group : GroupOp → ℕ → Wake × ℕ
run_group (add_op n) cnt = add n cnt
run_group done_op cnt = done_one cnt

abbrev pub group : Gate
group = record {
  State = ℕ;
  Action = GroupOp;
  try_complete = try_wait;
  attach_blocks = group_blocks;
  Allowed = GroupAllowed;
  run = run_group;
}
