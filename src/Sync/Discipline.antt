-- ===== src/Sync/Discipline.antt =====
-- What a lock of fuzz/xnu/osfmk/fakes/sync promises to its caller, as an automaton.
pub mod Laws
use sock_fuzzer.Common.{Bool, true, false, Option, none, some, List, [], ◌∷◌, ◌++◌, if◌then◌else◌}
use sock_fuzzer.Lock.{RwType, shared, exclusive}
use sock_fuzzer.Sync.{
  SyncCall, yield, mutex_lock, mutex_unlock, assert_mutex_held, mutex_try_lock, rw_lock_lock,
  rw_lock_unlock_as, rw_lock_try_lock, rw_lock_is_shared, rw_lock_unlock,
  rw_lock_exclusive_to_shared, rw_lock_shared_to_exclusive, lck_mtx_lock, lck_mtx_unlock,
  lck_mtx_yield, lck_mtx_try_lock, lck_rw_lock_as, lck_rw_unlock_as, lck_rw_try_lock_as,
  lck_rw_lock_yield_as, lck_rw_lock_exclusive_check_contended, lck_rw_lock_exclusive_to_shared,
  lck_rw_lock_shared_to_exclusive, lck_rw_done,
}

abbrev pub is_shared : RwType → Bool
is_shared shared = true
is_shared exclusive = false

-- How the caller holds the lock after a call, given how it does before. A mutex is held exclusively.
-- None stands for a call out of order: a yield in a critical section, a lock taken twice, a release
-- of what is not held, or an answer that the lock cannot give.
abbrev pub step : Option RwType → SyncCall → Option (Option RwType)
step none yield = some none
step none mutex_lock = some (some exclusive)
step none (mutex_try_lock got) = some (if got then some exclusive else none)
step none (rw_lock_lock type) = some (some type)
step none (rw_lock_try_lock type got) = some (if got then some type else none)
step none other = none
step (some exclusive) mutex_unlock = some none
step (some exclusive) assert_mutex_held = some (some exclusive)
step (some exclusive) (rw_lock_unlock_as exclusive) = some none
step (some shared) (rw_lock_unlock_as shared) = some none
step (some held) rw_lock_unlock = some none
step (some shared) (rw_lock_is_shared true) = some (some shared)
step (some exclusive) (rw_lock_is_shared false) = some (some exclusive)
step (some exclusive) rw_lock_exclusive_to_shared = some (some shared)
step (some shared) (rw_lock_shared_to_exclusive got) = some (if got then some exclusive else none)
step (some held) other = none

-- The operations on one lock. `done` carries what RwLockIsShared answers in it.
pub data Operation : Type 0 where
  mtx_lock mtx_unlock mtx_yield exclusive_to_shared : Operation
  mtx_try_lock shared_to_exclusive check_contended done : Bool → Operation
  rw_lock_as rw_unlock_as rw_yield_as : RwType → Operation
  rw_try_lock_as : RwType → Bool → Operation

abbrev pub calls : Operation → List SyncCall
calls mtx_lock = lck_mtx_lock
calls mtx_unlock = lck_mtx_unlock
calls mtx_yield = lck_mtx_yield
calls (mtx_try_lock got) = lck_mtx_try_lock got
calls (rw_lock_as type) = lck_rw_lock_as type
calls (rw_unlock_as type) = lck_rw_unlock_as type
calls (rw_try_lock_as type got) = lck_rw_try_lock_as type got
calls (rw_yield_as type) = (lck_rw_lock_yield_as type).1
calls (check_contended fuzzed) = (lck_rw_lock_exclusive_check_contended fuzzed).1
calls exclusive_to_shared = lck_rw_lock_exclusive_to_shared
calls (shared_to_exclusive got) = (lck_rw_lock_shared_to_exclusive got).1
calls (done answer) = (lck_rw_done answer).1

-- How the caller holds the lock after an operation, and none where it must not be called.
abbrev pub promise : Option RwType → Operation → Option (Option RwType)
promise none mtx_lock = some (some exclusive)
promise none (mtx_try_lock got) = some (if got then some exclusive else none)
promise none (rw_lock_as type) = some (some type)
promise none (rw_try_lock_as type got) = some (if got then some type else none)
promise none (check_contended fuzzed) = some (some exclusive)
promise none other = none
promise (some exclusive) mtx_unlock = some none
promise (some exclusive) mtx_yield = some (some exclusive)
promise (some exclusive) (rw_unlock_as exclusive) = some none
promise (some exclusive) (rw_yield_as exclusive) = some (some exclusive)
promise (some exclusive) exclusive_to_shared = some (some shared)
promise (some exclusive) (done false) = some none
promise (some shared) (rw_unlock_as shared) = some none
promise (some shared) (rw_yield_as shared) = some (some shared)
promise (some shared) (shared_to_exclusive got) = some (if got then some exclusive else none)
promise (some shared) (done true) = some none
promise (some held) other = none

abbrev pub all_calls : List Operation → List SyncCall
all_calls [] = []
all_calls (operation ∷ operations) = calls operation ++ all_calls operations
