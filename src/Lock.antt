-- ===== src/Lock.antt =====
-- fuzz/xnu/osfmk/fakes/locks.c: sleeping on a lock and waking by a turnstile. What the functions call
-- (assert_wait, thread_block, the lock functions, the turnstile functions) is XNU's or the host's: it
-- is recorded as a list of calls, oldest first, and what it answers is an argument.
pub mod Action
pub mod Sleep
pub mod Turnstile
pub mod Discipline
mod Tests
use sock_fuzzer.Common.{ℕ, Bool, true, false, Option}

-- wait_result_t, with the values that sync/rw_lock.cc lists.
pub data WaitResult : Type 0 where
  waiting awakened timed_out interrupted restart not_waiting : WaitResult

abbrev pub is_waiting : WaitResult → Bool
is_waiting WaitResult.waiting = true
is_waiting _ = false

-- lck_rw_type_t.
pub data RwType : Type 0 where
  shared exclusive : RwType

-- How a lock is held or taken: as a spin lock, as a ticket lock, as a mutex in one of three ways, or
-- as a reader-writer lock.
pub data Mode : Type 0 where
  spin ticket mutex mutex_spin mutex_spin_always : Mode
  rw_lock : RwType → Mode

-- The inheritor that turnstile_update_inheritor is given, with the update's flags: a sleeping
-- thread's inheritor, delayed, or none, at once.
pub data Inheritor : Type 0 where
  delayed_thread : (thread : ℕ) → Inheritor
  immediate_null : Inheritor

-- The calls that locks.c makes. `assert_wait` and `waitq_assert_wait` carry their answer;
-- `bucket_lock` carries the event that selects the bucket, or none for the index saved before.
pub data LockCall : Type 0 where
  assert_wait : (event interruptible : ℕ) → (deadline : Option ℕ) → (answer : WaitResult) → LockCall
  waitq_assert_wait : (event interruptible deadline : ℕ) → (answer : WaitResult) → LockCall
  thread_block : LockCall
  unlock : LockCall
  lock : Mode → LockCall
  floor_start floor_end : LockCall
  bucket_lock : (event : Option ℕ) → LockCall
  bucket_unlock : LockCall
  prepare_hash complete_hash : (event : ℕ) → LockCall
  set_block_hint : LockCall
  update_inheritor : Inheritor → LockCall
  update_inheritor_complete turnstile_cleanup : LockCall
  wakeup_identify : (event : ℕ) → (result : WaitResult) → (update : Bool) → LockCall
  wakeup_all : (event : ℕ) → (result : WaitResult) → LockCall
  thread_deallocate : (thread : ℕ) → LockCall

-- What assert_wait and thread_block answer to one sleep.
pub record Answers : Type 0 where
  pub asserted : WaitResult
  pub blocked : WaitResult
