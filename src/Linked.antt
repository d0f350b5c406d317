-- ===== src/Linked.antt =====
-- include/uvent/sync/WaitList.h: the list of waiters as it lies in memory. An address is a number, and 0 is
-- no address; the steps of a list run under its lock.
mod Chain
mod Distinct
pub mod Refine
mod Remove
pub mod Steps
mod Tests
use uvent.Common.{ℕ, ◌+◌, ◌-◌, ◌%◌, ◌^◌, Bool, true, false, ◌==◌, if◌then◌else◌}
use uvent.Common.Memory.{update}

-- The members of a waiter that the list uses.
pub record Waiter : Type 0 where
  pub prev : ℕ
  pub next : ℕ
  pub in_list : Bool

pub record WaitList : Type 0 where
  pub head : ℕ
  pub tail : ℕ
  pub count : ℕ
  pub waiters : ℕ → Waiter

abbrev pub u32 : ℕ → ℕ
u32 n = n % 2 ^ 32

-- Stores through a pointer that is not null.
abbrev pub set_next : ℕ → ℕ → (ℕ → Waiter) → ℕ → Waiter
set_next a n m = if a == 0 then m else update m a (record (m a) { next = n })

abbrev pub set_prev : ℕ → ℕ → (ℕ → Waiter) → ℕ → Waiter
set_prev a p m = if a == 0 then m else update m a (record (m a) { prev = p })

abbrev pub unlinked : Waiter
unlinked = record { prev = 0; next = 0; in_list = false }

unfoldable pub push_locked : ℕ → WaitList → WaitList
push_locked w l = record {
  head = if l.tail == 0 then w else l.head;
  tail = w;
  count = u32 (l.count + 1);
  waiters =
      update (set_next l.tail w l.waiters) w (record { prev = l.tail; next = 0; in_list = true });
}

-- The waiter returned, or 0, and the list.
unfoldable pub pop_front_locked : WaitList → ℕ × WaitList
pop_front_locked l =
    let next = (l.waiters l.head).next in
    if l.head == 0 then (0, l) else (
      l.head,
      record {
        head = next;
        tail = if next == 0 then 0 else l.tail;
        count = u32 (l.count + 2 ^ 32 - 1);
        waiters = update (set_prev next 0 l.waiters) l.head unlinked;
      },
    )

unfoldable pub remove_locked : ℕ → WaitList → Bool × WaitList
remove_locked w l =
    let it = l.waiters w in
    if it.in_list
    then (
      true,
      record {
        head = if it.prev == 0 then it.next else l.head;
        tail = if it.next == 0 then it.prev else l.tail;
        count = u32 (l.count + 2 ^ 32 - 1);
        waiters = update (set_prev it.next it.prev (set_next it.prev it.next l.waiters)) w unlinked;
      },
    )
    else (false, l)
