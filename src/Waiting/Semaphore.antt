-- ===== src/Waiting/Semaphore.antt =====
-- include/uvent/sync/AsyncSemaphore.h, as a primitive that coroutines wait for. The count starts from 0
-- or more and `release` is called with no negative number.
use uvent.Common.{ℕ, ◌+◌, ◌-◌, ◌^◌, ◌<◌, ◌==◌, refl, arith, Bool, true, false, if◌then◌else◌, inl}
use uvent.Waiting.{Wake, at_most, Gate, World, Runs, start}
use uvent.Waiting.Load.{load}
use uvent.Waiting.Served.{reachable-Served}
use uvent.Waiting.Kinds.{IsFed, IsCounting, counting-IsServing}

-- `count_` is an `int32_t`.
unfoldable pub try_acquire : ℕ → Bool × ℕ
try_acquire count = if count == 0 then (false, count) else (true, count - 1)

-- `AcquireOp::attach` after it has pushed the waiter: whether it returns true.
unfoldable pub acquire_blocks : ℕ → Bool
acquire_blocks count = count == 0

-- `release` up to its loop
unfoldable pub release : ℕ → ℕ → Wake × ℕ
release k count = (at_most k, count + k)

abbrev pub semaphore : Gate
semaphore = record {
  State = ℕ;
  Action = ℕ;
  try_complete = try_acquire;
  attach_blocks = acquire_blocks;
  Allowed = λ k count. count + k < 2 ^ 31;
  run = release;
}

semaphore-IsCounting : IsCounting semaphore (λ count. count)
unfolding try_acquire acquire_blocks release
semaphore-IsCounting = record {
  blocked = λ s e. ground (arith, e);
  taken = λ s. ground arith;
  fed = λ k s h. omega arith;
}

-- However coroutines acquire, wait, are cancelled and release: either no coroutine sleeps, or for every
-- unit of the count there is a coroutine that was woken and will try, or a wake-up that is due.
pub reachable-IsFed :
    {count : ℕ} {w : World ℕ} → Runs semaphore (start count) w → IsFed w.state (load w)
reachable-IsFed r =
    reachable-Served semaphore (λ s l. IsFed s l)
      (counting-IsServing semaphore (λ c. c) semaphore-IsCounting) (inl refl) r
