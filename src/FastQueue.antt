-- ===== src/FastQueue.antt =====
-- include/uvent/utils/datastructures/queue/FastQueue.h: the single-threaded growable queue, by which
-- a worker keeps its runnable coroutines and its timer operations. Prefetches have no effect and are
-- left out. Storing an element and moving it out are reads and writes of the buffer.
pub mod Window
pub mod Refine
pub mod Bulk
pub mod Fill
pub mod Copy
pub mod Out
mod Tests
use Prim.Native.Nat.{bit_and}
use mathlib.Core.Option
use uvent.Common.{
  ◌++◌, Bool, ℕ, zero, suc, ◌+◌, ◌-◌, ◌*◌, ◌^◌, Bool, true, false, Option, none, some, List, [],
  ◌∷◌, ltb, leb, ◌==◌, if◌then◌else◌, length, take, drop, ◌||◌, ◌||◌,
}
use uvent.Common.Bits.{u64}
use uvent.Common.Memory.{update}

-- `head` and `tail` count on; an index is masked. All four are `size_t`.
pub record Queue {ℓ} (A : Type ℓ) : Type ℓ where
  pub buffer : ℕ → A
  pub capacity : ℕ
  pub head : ℕ
  pub tail : ℕ
  pub mask : ℕ

module _ {ℓ} {A : Type ℓ} where
  -- `size`
  abbrev pub size : Queue A → ℕ
  size q = u64 (q.tail + 2 ^ 64 - q.head)

  -- `empty`
  abbrev pub is_empty : Queue A → Bool
  is_empty q = q.head == q.tail

  -- The loop of `grow`: `n` elements are left, and element `i` is next.
  unfoldable pub move_items : Queue A → ℕ → ℕ → (ℕ → A) → ℕ → A
  move_items q zero i new_buf = new_buf
  move_items q (suc n) i new_buf =
      move_items q n (i + 1) (update new_buf i (q.buffer (bit_and (u64 (q.head + i)) q.mask)))

  -- `grow`, where `raw` is what the new memory holds.
  unfoldable pub grow : (ℕ → A) → Queue A → Queue A
  grow raw q = record {
    buffer = move_items q (size q) 0 raw;
    capacity = u64 (q.capacity * 2);
    head = 0;
    tail = size q;
    mask = u64 (u64 (q.capacity * 2) + 2 ^ 64 - 1);
  }

  -- `enqueue` and `emplace` after their check for room.
  unfoldable pub store : Queue A → A → Queue A
  store q x = record q {
    buffer = update q.buffer (bit_and q.tail q.mask) x;
    tail = u64 (q.tail + 1);
  }

  -- `enqueue`, `emplace`
  unfoldable pub enqueue : (ℕ → A) → Queue A → A → Queue A
  enqueue raw q x = if size q == q.capacity then store (grow raw q) x else store q x

  -- `normalize_if_empty`
  unfoldable pub normalize_if_empty : Queue A → Queue A
  normalize_if_empty q = if q.head == q.tail then (record q { head = 0; tail = 0 }) else q

  -- `dequeue`: `none` for `false`, else what `item` receives.
  unfoldable pub dequeue : Queue A → Option A × Queue A
  dequeue q = if q.head == q.tail then (none, q) else (
    some (q.buffer (bit_and q.head q.mask)),
    normalize_if_empty (record q { head = u64 (q.head + 1) }),
  )

  -- `while (need > capacity) grow();` on fuel.
  unfoldable pub grow_until : (ℕ → A) → ℕ → ℕ → Queue A → Option (Queue A)
  grow_until raw zero need q = none
  grow_until raw (suc fuel) need q =
      let rest = grow_until raw fuel need (grow raw q) in
      if ltb q.capacity need then rest else some q

  -- The loop of `enqueue_bulk` over `src`, from the position `start + i`.
  unfoldable pub store_items : ℕ → ℕ → ℕ → List A → (ℕ → A) → ℕ → A
  store_items mask start i [] buffer = buffer
  store_items mask start i (x ∷ src) buffer =
      store_items mask start (i + 1) src (update buffer (bit_and (u64 (start + i)) mask) x)

  -- `enqueue_bulk` after its growing.
  unfoldable pub fill : List A → Queue A → Queue A
  fill src q = record q {
    buffer = store_items q.mask q.tail 0 src q.buffer;
    tail = u64 (q.tail + length src);
  }

  -- `memcpy` of elements to the cells from `i` on.
  unfoldable pub copy_items : ℕ → List A → (ℕ → A) → ℕ → A
  copy_items i [] buffer = buffer
  copy_items i (x ∷ src) buffer = copy_items (i + 1) src (update buffer i x)

  -- The same for elements that are trivially copyable, where `s` and `e` are the masked start and end.
  abbrev pub copy_parts : ℕ → ℕ → List A → Queue A → ℕ → A
  copy_parts s e src q =
      if ltb s e
      then copy_items s src q.buffer
      else copy_items 0 (drop (q.capacity - s) src)
          (copy_items s (take (q.capacity - s) src) q.buffer)

  unfoldable pub fill_copied : List A → Queue A → Queue A
  fill_copied src q = record q {
    buffer = copy_parts (bit_and q.tail q.mask) (bit_and (u64 (q.tail + length src)) q.mask) src q;
    tail = u64 (q.tail + length src);
  }

  -- `enqueue_bulk`: capacities double, so 65 rounds pass every `size_t`.
  unfoldable pub enqueue_bulk : (ℕ → A) → Queue A → List A → Option (Queue A)
  enqueue_bulk raw q [] = some q
  enqueue_bulk raw q (x ∷ src) =
      Option.map (fill (x ∷ src)) (grow_until raw 65 (size q + length (x ∷ src)) q)

  -- `enqueue_bulk_emplace`: `src` has what the constructor makes of each element of the arrays.
  abbrev pub enqueue_bulk_emplace : (ℕ → A) → Queue A → List A → Option (Queue A)
  enqueue_bulk_emplace = enqueue_bulk

  -- The loop of `dequeue_bulk`: `n` elements are left, and element `i` is next.
  unfoldable pub take_items : Queue A → ℕ → ℕ → List A
  take_items q zero i = []
  take_items q (suc n) i = q.buffer (bit_and (u64 (q.head + i)) q.mask) ∷ take_items q n (i + 1)

  -- `memcpy` of `n` elements from the cells from `i` on.
  unfoldable pub copy_out : (ℕ → A) → ℕ → ℕ → List A
  copy_out buffer i zero = []
  copy_out buffer i (suc n) = buffer i ∷ copy_out buffer (i + 1) n

  -- The copies of `dequeue_bulk` in one or two parts, where `s` and `e` are the masked start and end.
  abbrev pub parts_out : ℕ → ℕ → ℕ → Queue A → List A
  parts_out s e count q =
      if ltb s e
      then copy_out q.buffer s count
      else copy_out q.buffer s (q.capacity - s) ++ copy_out q.buffer 0 (count - (q.capacity - s))

  -- `dequeue_bulk`, for elements that are trivially copyable or not: the elements written to `out`, of
  -- which there are as many as the result says.
  unfoldable pub dequeue_bulk : Bool → Queue A → ℕ → List A × Queue A
  dequeue_bulk copyable q max_count =
      let count = if ltb (size q) max_count then size q else max_count in
      let end = u64 (q.head + count) in
      let out =
        if copyable
        then parts_out (bit_and q.head q.mask) (bit_and end q.mask) count q
        else take_items q count 0 in
      if (size q == 0) || (max_count == 0)
      then ([], q)
      else (out, normalize_if_empty (record q { head = end }))
