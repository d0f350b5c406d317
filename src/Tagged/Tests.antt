-- ===== src/Tagged/Tests.antt =====
-- TaggedPtr.h at concrete words.
use uvent.Common.{ℕ, ◌+◌, ◌-◌, ◌*◌, ◌^◌, ◌≡◌, inl, inr, arith, false, [], ◌∷◌}
use uvent.Tagged.{pack, unpack_ptr, unpack_tag, Snapshot, snapshot, exchange, load}
use uvent.Tagged.Pack.{unpack-pack}
use uvent.Tagged.Exchange.{IsExchange, IsStorable, exchange-IsExchange, swaps, stale-Refused}

abbrev kernel_address : ℕ
kernel_address = 2 ^ 64 - 4096

abbrev old : Snapshot
old = snapshot kernel_address 65535

old-IsStorable : IsStorable old
old-IsStorable = record { canonical = inr (omega arith); short = omega arith }

unpack-pack_example :
    (unpack_ptr (pack kernel_address 7) ≡ kernel_address) × (unpack_tag (pack kernel_address 7) ≡ 7)
unpack-pack_example = unpack-pack kernel_address 7 (inr (omega arith)) (omega arith)

exchange-IsExchange_example :
    IsExchange (2 ^ 64 - 4096) old 128 0 (exchange (2 ^ 64 - 4096) old 128)
exchange-IsExchange_example =
    exchange-IsExchange (2 ^ 64 - 4096) (omega arith) old old-IsStorable 128 (inl (omega arith))

stale-Refused_example :
    (exchange (swaps (2 ^ 48 * 3 + 64) (128 ∷ 64 ∷ [])) (load (2 ^ 48 * 3 + 64)) 192).ok ≡ false
stale-Refused_example =
    stale-Refused (2 ^ 48 * 3 + 64) (omega arith) (128 ∷ 64 ∷ [])
      (inl (omega arith), (inl (omega arith), tt)) (omega arith) (omega arith) 192
