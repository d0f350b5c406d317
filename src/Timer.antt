-- ===== src/Timer.antt =====
-- include/uvent/utils/timer/Timer.h and src/utils/timer/Timer.cpp: a one-shot timer, and the
-- operations that a timer wheel queues. A pointer (to a timer, a coroutine frame, a callback or its
-- argument) is a number; `nullptr` is `none` where the code tests for it.
use uvent.Common.{ℕ, Bool, true, false, Option, none, some}

pub record Timer : Type 0 where
  pub expiry_time : ℕ
  pub duration_ms : ℕ
  pub coro : Option ℕ
  pub raw_fn : Option ℕ
  pub raw_arg : ℕ
  pub heap : Bool
  pub active : Bool
  pub id : ℕ
  pub slot_index : ℕ
  pub level : ℕ
  pub pos_in_bucket : ℕ

-- `Timer::Timer(duration)` with the members' initialisers.
unfoldable pub new_timer : ℕ → Timer
new_timer duration = record {
  expiry_time = 0;
  duration_ms = duration;
  coro = none;
  raw_fn = none;
  raw_arg = 0;
  heap = true;
  active = true;
  id = 0;
  slot_index = 0;
  level = 0;
  pos_in_bucket = 0;
}

-- `bind`
unfoldable pub bind : Timer → ℕ → Timer
bind t h = record t { coro = some h; active = true }

-- `arm_raw`
unfoldable pub arm_raw : Timer → ℕ → ℕ → ℕ → Timer
arm_raw t dur fn arg = record t {
  duration_ms = dur;
  raw_fn = some fn;
  raw_arg = arg;
  coro = none;
  active = true;
}

-- `arm_embedded`: a timer inside another object, which the wheel must not delete.
unfoldable pub arm_embedded : Timer → ℕ → ℕ → ℕ → Timer
arm_embedded t dur fn arg = record t {
  duration_ms = dur;
  heap = false;
  raw_fn = some fn;
  raw_arg = arg;
  coro = none;
  active = true;
}

-- `Op` with its `OpType`: the union's members by the tag. The callback of a removal may be absent.
pub data Op : Type 0 where
  add : (timer add_id : ℕ) → Op
  update_op : (id new_dur : ℕ) → Op
  remove : (id_only : ℕ) (done : Option ℕ) (done_arg : ℕ) → Op
