-- ===== src/Host/Copying/Laws.antt =====
-- On BlockCopyin, UnblockCopyin and IsCopyioBlocked of fuzz/host/host.cc, in any nesting.
use sock_fuzzer.Common.{
  ℕ, zero, suc, true, Option, none, some, List, [], ◌∷◌, length, ◌+◌, ◌^◌, ◌<◌, ◌≡◌, ◌≢◌, ◌↔◌, refl,
  arith, if◌then◌else◌, ◌==◌,
}
use sock_fuzzer.Host.{Host}
use sock_fuzzer.Host.Copying.{block_copyin, unblock_copyin, is_copyio_blocked}

pub data Move : Type 0 where
  block unblock : Move

-- The depth of nesting after some moves from a depth, or none where an unblock has no block.
abbrev pub depth : List Move → ℕ → Option ℕ
depth [] d = some d
depth (block ∷ moves) d = depth moves (suc d)
depth (unblock ∷ moves) zero = none
depth (unblock ∷ moves) (suc d) = depth moves d

module _ {S Name : Type 0} where
  abbrev pub run : List Move → Host S Name → Host S Name
  run [] host = host
  run (block ∷ moves) host = run moves (block_copyin host)
  run (unblock ∷ moves) host = run moves (unblock_copyin host)

  -- Where no unblock lacks its block, and the moves are too few to overflow the counter of 64 bits, the
  -- counter of the current thread is the depth of nesting: copying is blocked exactly if that is not
  -- 0. The counters of other handles are as before.
  pub run-depth :
      (moves : List Move) (host : Host S Name) (d e other : ℕ)
      → host.copyin_blocked host.current_thread ≡ d
      → d + length moves < 2 ^ 64
      → depth moves d ≡ some e
      → let after = run moves host in
        (after.copyin_blocked host.current_thread ≡ e)
        × (after.current_thread ≡ host.current_thread)
        × ((is_copyio_blocked after ≡ true) ↔ (e ≢ 0))
        × (after.copyin_blocked other
            ≡ (if other == host.current_thread then e else host.copyin_blocked other))
  unfolding block_copyin unblock_copyin
  run-depth [] host d e other same room nested =
      (ground arith, refl, (λ b. ground arith, λ b. ground arith), ground arith)
  run-depth (block ∷ moves) host d e other same room nested =
      let (count, current, blocked, others) =
        run-depth moves (block_copyin host) (suc d) e other (ground arith) (omega arith) nested in
      (count, current, blocked, ground (arith, others))
  run-depth (unblock ∷ moves) host zero e other same room nested = cc
  run-depth (unblock ∷ moves) host (suc d) e other same room nested =
      let (count, current, blocked, others) =
        run-depth moves (unblock_copyin host) d e other (ground arith) (omega arith) nested in
      (count, current, blocked, ground (arith, others))
