-- ===== src/Sync.antt =====
-- The locks that XNU sees, over the virtual mutexes and reader-writer locks of the host:
-- fuzz/xnu/osfmk/fakes/sync/mutex.cc, spin.cc, rw_lock.cc and locks.cc. An operation is the list of
-- hypercalls that it makes on one lock, oldest first, with what they answer as an argument.
pub mod Discipline
pub mod Pointer
mod Tests
use sock_fuzzer.Common.{
  ℕ, Bool, true, false, List, [], ◌∷◌, Outcome, ok, stop, aborted, if◌then◌else◌, ◌==◌,
}
use sock_fuzzer.Lock.{RwType, shared, exclusive}

pub data SyncCall : Type 0 where
  yield : SyncCall
  mutex_lock mutex_unlock assert_mutex_held : SyncCall
  mutex_try_lock : (got : Bool) → SyncCall
  rw_lock_lock rw_lock_unlock_as : RwType → SyncCall
  rw_lock_try_lock : RwType → (got : Bool) → SyncCall
  rw_lock_is_shared : (answer : Bool) → SyncCall
  rw_lock_unlock rw_lock_exclusive_to_shared : SyncCall
  rw_lock_shared_to_exclusive : (got : Bool) → SyncCall

-- lck_mtx_lock, with lck_mtx_lock_spin and lck_mtx_lock_spin_always, lck_spin_lock, lck_spin_lock_grp
-- and usimple_lock, which do the same.
unfoldable pub lck_mtx_lock : List SyncCall
lck_mtx_lock = yield ∷ mutex_lock ∷ []

-- lck_mtx_unlock, lck_spin_unlock, hw_lock_unlock and usimple_unlock.
unfoldable pub lck_mtx_unlock : List SyncCall
lck_mtx_unlock = mutex_unlock ∷ yield ∷ []

-- lck_mtx_try_lock, lck_mtx_try_lock_spin, lck_spin_try_lock, lck_spin_try_lock_grp, hw_lock_try,
-- hw_lock_to and usimple_lock_try. What the hypercall answers is the result.
unfoldable pub lck_mtx_try_lock : (got : Bool) → List SyncCall
lck_mtx_try_lock got = yield ∷ mutex_try_lock got ∷ []

unfoldable pub lck_mtx_yield : List SyncCall
lck_mtx_yield = mutex_unlock ∷ yield ∷ mutex_lock ∷ []

unfoldable pub lck_mtx_assert : List SyncCall
lck_mtx_assert = yield ∷ []

unfoldable pub hw_lock_held : List SyncCall
hw_lock_held = yield ∷ assert_mutex_held ∷ []

-- lck_rw_lock_shared and lck_rw_lock_exclusive.
unfoldable pub lck_rw_lock_as : RwType → List SyncCall
lck_rw_lock_as type = yield ∷ rw_lock_lock type ∷ []

-- lck_rw_unlock_shared and lck_rw_unlock_exclusive.
unfoldable pub lck_rw_unlock_as : RwType → List SyncCall
lck_rw_unlock_as type = rw_lock_unlock_as type ∷ yield ∷ []

-- lck_rw_try_lock_shared and lck_rw_try_lock_exclusive.
unfoldable pub lck_rw_try_lock_as : RwType → (got : Bool) → List SyncCall
lck_rw_try_lock_as type got = yield ∷ rw_lock_try_lock type got ∷ []

-- The result is what GetFuzzedBool answers.
unfoldable pub lck_rw_lock_exclusive_check_contended : (fuzzed : Bool) → Bool × List SyncCall
lck_rw_lock_exclusive_check_contended fuzzed = (fuzzed, yield ∷ rw_lock_lock exclusive ∷ [])

-- lck_rw_lock_yield_shared and lck_rw_lock_yield_exclusive, in any mode.
unfoldable pub lck_rw_lock_yield_as : RwType → Bool × List SyncCall
lck_rw_lock_yield_as type = (true, rw_lock_unlock_as type ∷ yield ∷ rw_lock_lock type ∷ [])

unfoldable pub lck_rw_lock_exclusive_to_shared : List SyncCall
lck_rw_lock_exclusive_to_shared = rw_lock_exclusive_to_shared ∷ []

unfoldable pub lck_rw_lock_shared_to_exclusive : (got : Bool) → Bool × List SyncCall
lck_rw_lock_shared_to_exclusive got = (got, rw_lock_shared_to_exclusive got ∷ [])

-- LCK_RW_TYPE_SHARED is 1, LCK_RW_TYPE_EXCLUSIVE 2. `answer` is what RwLockIsShared answers.
unfoldable pub lck_rw_done : (answer : Bool) → ℕ × List SyncCall
lck_rw_done answer =
    (if answer then 1 else 2, rw_lock_is_shared answer ∷ rw_lock_unlock ∷ yield ∷ [])

unfoldable pub lck_rw_lock : (lck_type : ℕ) → Outcome (List SyncCall)
unfolding lck_rw_lock_as
lck_rw_lock lck_type =
    if lck_type == 1
    then ok (lck_rw_lock_as shared)
    else if lck_type == 2
    then ok (lck_rw_lock_as exclusive)
    else stop aborted
