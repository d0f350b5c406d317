-- ===== src/Tagged.antt =====
-- include/uvent/utils/sync/TaggedPtr.h: a pointer of 48 bits and a tag of 16 in one word. The exchanges
-- differ in their memory orders and in whether they may fail at random; a spurious failure is a
-- failure of the word that is not compared, and is left out.
pub mod Pack
pub mod Exchange
mod Tests
use Prim.Native.Nat.{bit_and, bit_or, bit_xor}
use uvent.Common.{ℕ, ◌+◌, ◌-◌, ◌*◌, ◌/◌, ◌^◌, Bool, true, false, ◌==◌, if◌then◌else◌}
use uvent.Common.Bits.{u64}

abbrev pub ptr_mask : ℕ
ptr_mask = 2 ^ 48 - 1

abbrev pub tag_mask : ℕ
tag_mask = 2 ^ 16 - 1

abbrev pub sign_bit : ℕ
sign_bit = 2 ^ 47

unfoldable pub pack : ℕ → ℕ → ℕ
pack ptr tag = bit_or (bit_and ptr ptr_mask) (bit_and tag tag_mask * 2 ^ 48)

unfoldable pub unpack_ptr : ℕ → ℕ
unpack_ptr v = u64 (bit_xor (bit_and v ptr_mask) sign_bit + 2 ^ 64 - sign_bit)

unfoldable pub unpack_tag : ℕ → ℕ
unpack_tag v = bit_and (v / 2 ^ 48) tag_mask

pub record Snapshot : Type 0 where
  pub ptr : ℕ
  pub tag : ℕ

abbrev pub snapshot : ℕ → ℕ → Snapshot
snapshot ptr tag = record { ptr = ptr; tag = tag }

unfoldable pub load : ℕ → Snapshot
load v = snapshot (unpack_ptr v) (unpack_tag v)

unfoldable pub store : Snapshot → ℕ
store s = pack s.ptr s.tag

-- What an exchange returns, the snapshot `expected` after it, and the word.
pub record Exchanged : Type 0 where
  pub ok : Bool
  pub expected : Snapshot
  pub word : ℕ

-- `compare_exchange_weak` and `compare_exchange_strong` with an explicit tag
unfoldable pub exchange_tagged : ℕ → Snapshot → ℕ → ℕ → Exchanged
exchange_tagged v expected desired desired_tag =
    if v == pack expected.ptr expected.tag
    then (record { ok = true; expected = expected; word = pack desired desired_tag })
    else (record { ok = false; expected = load v; word = v })

-- `compare_exchange_weak` and `compare_exchange_strong`
unfoldable pub exchange : ℕ → Snapshot → ℕ → Exchanged
exchange v expected desired =
    exchange_tagged v expected desired (bit_and (expected.tag + 1) tag_mask)
