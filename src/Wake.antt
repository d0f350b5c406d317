-- ===== src/Wake.antt =====
-- include/uvent/net/SocketMetadata.h: the wake-up words of a socket header, one per direction, by
-- which a waiting coroutine, the poller and the cancel hook agree on who resumes the coroutine. A
-- word is 0, READY, or the address of a parked coroutine. Each atomic operation is one step.
pub mod Protocol
use Prim.Native.Nat.{bit_and}
use uvent.Common.{ℕ, ◌-◌, Bool, true, false, not, ◌==◌, if◌then◌else◌, ◌&&◌}

-- `READY`
abbrev pub ready : ℕ
ready = 1

-- `handle_of`: 0 is the null handle.
unfoldable pub handle_of : ℕ → ℕ
handle_of w = w - bit_and w ready

-- `fire_read` and `fire_write`: the waiter, and the new word.
unfoldable pub fire : ℕ → ℕ × ℕ
fire w = (handle_of w, ready)

-- `is_read_armed` and `is_write_armed`
unfoldable pub is_armed : ℕ → Bool
is_armed w = not (bit_and w ready == 0)

-- `disarm_read` and `disarm_write`
unfoldable pub disarm : ℕ → ℕ
disarm w = if w == ready then 0 else w

-- `unpark_read` and `unpark_write`: whether the caller owns the resume, and the new word.
unfoldable pub unpark : ℕ → ℕ → Bool × ℕ
unpark w h = if w == h then (true, 0) else (false, w)

-- Where a call of `park` stands: it has read `cur`, or it has returned.
pub data Park : Type 0 where
  testing : ℕ → Park
  returned : Bool → Park

-- One round of the loop of `park`, whose exchange is strong or, with `weak`, fails as a weak one may.
unfoldable pub park_round : ℕ → Bool → ℕ → ℕ → Park × ℕ
park_round me weak cur w =
    let hit = (w == cur) && not weak in
    if is_armed cur
    then (if hit then (Park.returned false, 0) else (Park.testing w, w))
    else if cur == 0
    then (if hit then (Park.returned true, me) else (Park.testing w, w))
    else (Park.returned true, w)
