-- ===== src/Wake/Protocol/Tests.antt =====
-- SocketMetadata.h: a coroutine that finds nothing to read and parks, and bytes that then arrive.
use uvent.Common.{ℕ, ◌≡◌, refl, true, false, arith}
use uvent.Wake.{park_round, is_armed}
use uvent.Wake.Protocol.{
  Phase, System, Steps, done, next, read_step, arrive_step, start, arrive, poll, reader_at,
}
use uvent.Wake.Protocol.Safe.{IsSafe, reachable-IsSafe, reachable-IsWoken}

-- A frame's address.
abbrev frame : ℕ
frame = 4096

abbrev read_now : System → System
read_now s = reader_at frame false false s.phase s

abbrev four_reads : System
four_reads = read_now (read_now (read_now (read_now start)))

to_parked : Steps frame start (arrive four_reads)
to_parked =
    next
      (next
        (next (next (next (done start) (read_step false false _)) (read_step false false _))
          (read_step false false _))
        (read_step false false _))
      (arrive_step _)

parked_now : (arrive four_reads).phase ≡ Phase.parked
unfolding reader_at park_round is_armed
parked_now = refl

reachable-IsSafe_example : IsSafe frame (arrive four_reads)
reachable-IsSafe_example = reachable-IsSafe frame refl (λ e. absurd (ground (arith, e))) to_parked

reachable-IsWoken_example :
    ((arrive four_reads).edge ≡ true) × ((poll (arrive four_reads)).phase ≡ Phase.woken)
reachable-IsWoken_example =
    reachable-IsWoken frame refl (λ e. absurd (ground (arith, e))) to_parked parked_now refl
