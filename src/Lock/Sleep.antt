-- ===== src/Lock/Sleep.antt =====
-- lck_spin_sleep_grp, lck_spin_sleep, lck_spin_sleep_deadline, lck_rw_sleep, lck_mtx_sleep and
-- lck_mtx_sleep_deadline of fuzz/xnu/osfmk/fakes/locks.c. KERNEL_DEBUG, which only traces, is left
-- out. Each gives the calls that it makes and its result.
pub mod Laws
use sock_fuzzer.Common.{
  ℕ, Bool, true, false, ◌||◌, Option, none, some, List, [], ◌∷◌, ◌++◌, Outcome, ok, stop, panicked,
  if◌then◌else◌,
}
use sock_fuzzer.Lock.Action
use sock_fuzzer.Lock.{
  WaitResult, is_waiting, RwType, shared, exclusive, Mode, spin, mutex, mutex_spin,
  mutex_spin_always, rw_lock, LockCall, assert_wait, thread_block, unlock, lock, floor_start,
  floor_end, Answers,
}

-- The part that all six share, from the call of assert_wait on. `retake` is the lock taken again.
unfoldable pub sleep_on :
    (action event interruptible : ℕ)
    → (deadline : Option ℕ) → (retake : Mode) → Answers
    → List LockCall × WaitResult
sleep_on action event interruptible deadline retake s =
    if is_waiting s.asserted
    then (
      assert_wait event interruptible deadline s.asserted
          ∷ unlock
          ∷ thread_block
          ∷ (if Action.unlocks action then [] else lock retake ∷ []),
      s.blocked,
    )
    else (
      assert_wait event interruptible deadline s.asserted
          ∷ (if Action.unlocks action then unlock ∷ [] else []),
      s.asserted,
    )

-- lck_spin_sleep is this with no lock group.
unfoldable pub lck_spin_sleep_grp :
    (action event interruptible : ℕ) → Answers → Outcome (List LockCall × WaitResult)
lck_spin_sleep_grp action event interruptible s =
    if Action.is_invalid action
    then stop panicked
    else ok (sleep_on action event interruptible none spin s)

unfoldable pub lck_spin_sleep_deadline :
    (action event interruptible deadline : ℕ) → Answers → Outcome (List LockCall × WaitResult)
lck_spin_sleep_deadline action event interruptible deadline s =
    if Action.is_invalid action
    then stop panicked
    else ok (sleep_on action event interruptible (some deadline) spin s)

-- With LCK_SLEEP_PROMOTED_PRI the sleep happens at a priority floor.
abbrev pub with_floor : (action : ℕ) → List LockCall × WaitResult → List LockCall × WaitResult
with_floor action r =
    if Action.promotes action then (floor_start ∷ r.0 ++ floor_end ∷ [], r.1) else r

-- `held` is the type that lck_rw_done returns.
abbrev pub rw_retake : (action : ℕ) → (held : RwType) → Mode
rw_retake action held =
    if Action.takes_shared action || Action.takes_exclusive action
    then (if Action.takes_exclusive action then rw_lock exclusive else rw_lock shared)
    else rw_lock held

unfoldable pub lck_rw_sleep :
    (action event interruptible : ℕ)
    → (held : RwType) → Answers
    → Outcome (List LockCall × WaitResult)
lck_rw_sleep action event interruptible held s =
    if Action.is_invalid action
    then stop panicked
    else ok (with_floor action (sleep_on action event interruptible none (rw_retake action held) s))

abbrev pub mtx_retake : (action : ℕ) → Mode
mtx_retake action =
    if Action.takes_spin action
    then mutex_spin
    else if Action.takes_spin_always action
    then mutex_spin_always
    else mutex

unfoldable pub lck_mtx_sleep :
    (action event interruptible : ℕ) → Answers → Outcome (List LockCall × WaitResult)
lck_mtx_sleep action event interruptible s =
    if Action.is_invalid action
    then stop panicked
    else ok (with_floor action (sleep_on action event interruptible none (mtx_retake action) s))

-- Unlike lck_mtx_sleep this does not look at LCK_SLEEP_SPIN_ALWAYS.
abbrev pub mtx_deadline_retake : (action : ℕ) → Mode
mtx_deadline_retake action = if Action.takes_spin action then mutex_spin else mutex

unfoldable pub lck_mtx_sleep_deadline :
    (action event interruptible deadline : ℕ) → Answers → Outcome (List LockCall × WaitResult)
lck_mtx_sleep_deadline action event interruptible deadline s =
    if Action.is_invalid action
    then stop panicked
    else ok (
        with_floor action
          (sleep_on action event interruptible (some deadline) (mtx_deadline_retake action) s))
