-- ===== src/Buffer.antt =====
-- include/uvent/utils/buffer/DynamicBuffer.h and src/utils/buffer/DynamicBuffer.cpp: the growable
-- buffer of bytes. `raw` is what newly allocated memory holds; a pointer into the buffer is its offset.
pub mod Grow
pub mod Append
mod Tests
use mathlib.Core.Option
use uvent.Common.{
  ℕ, zero, suc, ◌+◌, ◌*◌, Bool, true, false, Option, none, some, List, [], ◌∷◌, ltb, ◌==◌,
  if◌then◌else◌, length,
}
use uvent.Common.Bits.{u64}
use uvent.Common.Memory.{update}

pub record DynamicBuffer : Type 0 where
  pub data_at : ℕ → ℕ
  pub cap : ℕ
  pub size : ℕ

-- `std::memcpy` of a list of bytes to an offset.
unfoldable pub copy_bytes : List ℕ → ℕ → (ℕ → ℕ) → ℕ → ℕ
copy_bytes [] at m = m
copy_bytes (x ∷ xs) at m = copy_bytes xs (at + 1) (update m at x)

-- `std::memcpy` of the first `n` bytes of one memory over another.
abbrev pub copy_front : ℕ → (ℕ → ℕ) → (ℕ → ℕ) → ℕ → ℕ
copy_front n src dst i = if ltb i n then src i else dst i

-- `while (cap < need) cap <<= 1;` on fuel.
unfoldable pub double_until : ℕ → ℕ → ℕ → Option ℕ
double_until zero need cap = none
double_until (suc fuel) need cap =
    let rest = double_until fuel need (u64 (cap * 2)) in if ltb cap need then rest else some cap

-- `grow_` when it has found its capacity.
abbrev pub moved : (ℕ → ℕ) → DynamicBuffer → ℕ → DynamicBuffer
moved raw b cap = record b { data_at = copy_front b.size b.data_at raw; cap = cap }

-- `grow_`: 65 rounds pass every `size_t`.
unfoldable pub grow : (ℕ → ℕ) → DynamicBuffer → ℕ → Option DynamicBuffer
grow raw b need =
    Option.map (moved raw b) (double_until 65 need (if b.cap == 0 then 4096 else b.cap))

-- `reserve`
unfoldable pub reserve : (ℕ → ℕ) → DynamicBuffer → ℕ → Option DynamicBuffer
reserve raw b n = if ltb b.cap n then grow raw b n else some b

-- `reserve_tail`, whose pointer is at the size.
unfoldable pub reserve_tail : (ℕ → ℕ) → DynamicBuffer → ℕ → Option DynamicBuffer
reserve_tail raw b len = reserve raw b (u64 (b.size + len))

-- `commit`
unfoldable pub commit : DynamicBuffer → ℕ → DynamicBuffer
commit b n =
    let size = u64 (b.size + n) in record b { size = if ltb b.cap size then b.cap else size }

-- `append` after its reservation.
abbrev pub write : List ℕ → DynamicBuffer → DynamicBuffer
write src b = commit (record b { data_at = copy_bytes src b.size b.data_at }) (length src)

-- `append`
unfoldable pub append : (ℕ → ℕ) → DynamicBuffer → List ℕ → Option DynamicBuffer
append raw b src = Option.map (write src) (reserve_tail raw b (length src))

-- `append_raw`
unfoldable pub append_raw : (ℕ → ℕ) → DynamicBuffer → ℕ → Option DynamicBuffer
append_raw raw b len = Option.map (λ r. commit r len) (reserve_tail raw b len)

-- `shrink`
unfoldable pub shrink : DynamicBuffer → ℕ → DynamicBuffer
shrink b new_size = if ltb new_size b.size then (record b { size = new_size }) else b

-- `clear`
abbrev pub clear : DynamicBuffer → DynamicBuffer
clear b = record b { size = 0 }

-- `free_`
abbrev pub free : DynamicBuffer → DynamicBuffer
free b = record b { cap = 0; size = 0 }
