-- ===== src/Wake/Protocol.antt =====
-- SocketMetadata.h, with its callers in include/uvent/net/SocketLinux.h,
-- src/net/AwaiterOperations.cpp and src/poll/EPoller.cpp: the coroutine that reads, the kernel, the
-- poller and the cancel hook as one system whose steps interleave.
pub mod Safe
mod Tests
use uvent.Common.{ℕ, ◌+◌, ◌≡◌, Bool, true, false, ◌==◌, if◌then◌else◌}
use uvent.Wake.{fire, is_armed, disarm, unpark, Park, park_round}

-- Where the reading coroutine stands: before the test of the hint, before it clears it, before the
-- probe, before the first load of `park`, in its loop, parked, or in the run queue.
pub data Phase : Type 0 where
  checking : Phase
  disarming : Phase
  probing : Phase
  loading : Phase
  parking : ℕ → Phase
  parked : Phase
  woken : Phase

-- `data`: the kernel has bytes to read. `edge`: the poller has an event to handle. `parks` and
-- `resumes` count.
pub record System : Type 0 where
  pub word : ℕ
  pub phase : Phase
  pub data_ready : Bool
  pub edge : Bool
  pub parks : ℕ
  pub resumes : ℕ

-- `resume_waiter`
abbrev pub resume : System → System
resume s = record s { phase = Phase.woken; resumes = s.resumes + 1 }

-- What the call of `park` came to: the coroutine sleeps, or it goes to the run queue.
abbrev pub after_round : Park × ℕ → System → System
after_round (Park.testing cur, w) s = record s { word = w; phase = Phase.parking cur }
after_round (Park.returned true, w) s = record s {
  word = w;
  phase = Phase.parked;
  parks = s.parks + 1;
}
after_round (Park.returned false, w) s = record s { word = w; phase = Phase.woken }

-- One step of the coroutine `h`; a read may leave bytes.
unfoldable pub reader_at : ℕ → Bool → Bool → Phase → System → System
reader_at h weak left Phase.checking s = record s {
  phase = if is_armed s.word then Phase.disarming else Phase.probing;
}
reader_at h weak left Phase.disarming s = record s { word = disarm s.word; phase = Phase.probing }
reader_at h weak left Phase.probing s =
    if s.data_ready
    then (record s { data_ready = left; phase = Phase.checking })
    else (record s { phase = Phase.loading })
reader_at h weak left Phase.loading s = record s { phase = Phase.parking s.word }
reader_at h weak left (Phase.parking cur) s = after_round (park_round h weak cur s.word) s
reader_at h weak left Phase.parked s = s
reader_at h weak left Phase.woken s = record s { phase = Phase.checking }

-- Bytes arrive, and the kernel has an edge for the poller.
abbrev pub arrive : System → System
arrive s = record s { data_ready = true; edge = true }

-- The poller's handling of an event.
unfoldable pub poll : System → System
poll s =
    let fired = fire s.word in
    let next = record s { word = fired.1; edge = false } in
    if fired.0 == 0 then next else resume next

-- `cancel_socket_read`
unfoldable pub cancel : ℕ → System → System
cancel h s =
    let taken = unpark s.word h in
    let next = record s { word = taken.1 } in if taken.0 then resume next else next

pub data Step (h : ℕ) : System → System → Type 0 where
  read_step : (weak left : Bool) (s : System) → Step h s (reader_at h weak left s.phase s)
  arrive_step : (s : System) → Step h s (arrive s)
  poll_step : (s : System) → s.edge ≡ true → Step h s (poll s)
  cancel_step : (s : System) → Step h s (cancel h s)

pub data Steps (h : ℕ) : System → System → Type 0 where
  done : (s : System) → Steps h s s
  next : {r s t : System} → Steps h r s → Step h s t → Steps h r t

-- A header as it is made, and a coroutine that is about to read.
abbrev pub start : System
start = record {
  word = 0;
  phase = Phase.checking;
  data_ready = false;
  edge = false;
  parks = 0;
  resumes = 0;
}
