-- ===== src/Host/Copying.antt =====
-- BlockCopyin, UnblockCopyin and IsCopyioBlocked of fuzz/host/host.cc: a counter for each handle.
pub mod Laws
use sock_fuzzer.Common.{ℕ, Bool, true, false, List, [], ◌∷◌, ◌+◌, ◌-◌, ◌%◌, ◌^◌, ltb, update}
use sock_fuzzer.Host.{Host}

module _ {S Name : Type 0} where
  -- The counters are of size_t, 64 bits wide.
  unfoldable pub block_copyin : Host S Name → Host S Name
  block_copyin host = record host {
    copyin_blocked =
        update host.copyin_blocked host.current_thread
          ((host.copyin_blocked host.current_thread + 1) % 2 ^ 64);
  }

  unfoldable pub unblock_copyin : Host S Name → Host S Name
  unblock_copyin host = record host {
    copyin_blocked =
        update host.copyin_blocked host.current_thread
          ((host.copyin_blocked host.current_thread + (2 ^ 64 - 1)) % 2 ^ 64);
  }

  abbrev pub is_copyio_blocked : Host S Name → Bool
  is_copyio_blocked host = ltb 0 (host.copyin_blocked host.current_thread)
