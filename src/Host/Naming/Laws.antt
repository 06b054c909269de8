-- ===== src/Host/Naming/Laws.antt =====
-- On GetId of fuzz/host/host.cc.
use sock_fuzzer.Common.{ℕ, some, ◌+◌, ◌^◌, ◌<◌, ◌≤◌, ◌≡◌, if◌then◌else◌, ◌==◌, arith, ◌⊎◌}
use sock_fuzzer.Host.{Host}
use sock_fuzzer.Host.Naming.{get_id}

module _ {S Name : Type 0} where
  -- Numbers that were given are below the next one, which is past the seven reserved ones, and no two
  -- handles have the same.
  pub record IsNumbered (host : Host S Name) : Type 0 where
    pub reserved : 7 ≤ host.next_thread_id
    pub below : (handle id : ℕ) → host.readable_ids handle ≡ some id → id < host.next_thread_id
    pub distinct :
        (handle other id : ℕ)
        → host.readable_ids handle ≡ some id
        → host.readable_ids other ≡ some id
        → handle ≡ other

  -- Asking for the number of a handle keeps the numbers distinct, as long as the counter of 32 bits
  -- does not run out. The handle has that number afterwards, is given it again when asked again,
  -- which changes nothing, and a number given for the first time is not a reserved one. Other handles keep
  -- theirs.
  pub get_id-IsNumbered :
      (handle other : ℕ) (host : Host S Name)
      → IsNumbered host
      → host.next_thread_id + 1 < 2 ^ 32
      → let (id, after) = get_id handle host in
        IsNumbered after
        × (after.readable_ids handle ≡ some id)
        × (get_id handle after ≡ (id, after))
        × ((7 ≤ id) ⊎ (host.readable_ids handle ≡ some id))
        × (after.readable_ids other
            ≡ (if other == handle then some id else host.readable_ids other))
  unfolding get_id
  get_id-IsNumbered handle other host v room = (
    record {
      reserved = ground arith;
      below = λ h id e. ground (arith, v.below h id);
      distinct = λ h h' id e e'. ground (arith, v.below h id, v.below h' id, v.distinct h h' id);
    },
    ground arith,
    ground arith,
    ground arith,
    ground arith,
  )
