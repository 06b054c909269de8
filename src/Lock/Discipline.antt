-- ===== src/Lock/Discipline.antt =====
-- What it takes for a sequence of calls of locks.c to be in order: an automaton that refuses to block
-- while a lock is held, to take or release a lock or a turnstile twice, or to sleep unasked.
use sock_fuzzer.Common.{
  Bool, true, false, ◌||◌, Option, none, some, List, [], ◌∷◌, if◌then◌else◌, is_some,
}
use sock_fuzzer.Lock.{
  is_waiting, Mode, LockCall, assert_wait, waitq_assert_wait, thread_block, unlock, lock,
  floor_start, floor_end, bucket_lock, bucket_unlock, prepare_hash, complete_hash, set_block_hint,
  update_inheritor, update_inheritor_complete, turnstile_cleanup, wakeup_identify, wakeup_all,
  thread_deallocate,
}

-- How the caller's lock is held, and whether the bucket is locked, the priority floor is raised, the
-- thread waits for its event, and a turnstile is in use.
pub record View : Type 0 where
  pub held : Option Mode
  pub bucket : Bool
  pub floor : Bool
  pub queued : Bool
  pub turnstile : Bool

-- Nothing but the lock, held or not.
abbrev pub at_rest : Option Mode → View
at_rest held = record {
  held = held;
  bucket = false;
  floor = false;
  queued = false;
  turnstile = false;
}

abbrev pub when : Bool → View → Option View
when b v = if b then some v else none

abbrev pub not : Bool → Bool
not b = if b then false else true

abbrev pub step : View → LockCall → Option View
step v (assert_wait event interruptible deadline answer) =
    when (not v.queued) (record v { queued = is_waiting answer })
step v (waitq_assert_wait event interruptible deadline answer) =
    if v.bucket then when (not v.queued) (record v { queued = is_waiting answer }) else none
step v thread_block =
    if is_some v.held || v.bucket then none else when v.queued (record v { queued = false })
step v unlock = when (is_some v.held) (record v { held = none })
step v (lock m) = if is_some v.held || v.bucket then none else some (record v { held = some m })
step v floor_start = when (not v.floor) (record v { floor = true })
step v floor_end = when v.floor (record v { floor = false })
step v (bucket_lock e) = when (not v.bucket) (record v { bucket = true })
step v bucket_unlock = when v.bucket (record v { bucket = false })
step v (prepare_hash e) =
    if v.bucket then when (not v.turnstile) (record v { turnstile = true }) else none
step v (complete_hash e) =
    if v.bucket then when v.turnstile (record v { turnstile = false }) else none
step v set_block_hint = some v
step v (update_inheritor i) = if v.bucket then when v.turnstile v else none
step v update_inheritor_complete = if v.bucket then none else when v.turnstile v
step v turnstile_cleanup = if v.bucket || v.turnstile then none else some v
step v (wakeup_identify e r u) = if v.bucket then when v.turnstile v else none
step v (wakeup_all e r) = if v.bucket then when v.turnstile v else none
step v (thread_deallocate t) = some v

-- The view after a sequence of calls, none if a call is out of order.
unfoldable pub run : View → List LockCall → Option View
run v [] = some v
run v (c ∷ cs) = elim (step v c) [ none ↦ none | some v' ↦ run v' cs ]
