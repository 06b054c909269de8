-- ===== src/Lock/Turnstile.antt =====
-- sleep_with_inheritor_and_turnstile, its callers for spin and ticket locks, and
-- wakeup_with_inheritor_and_turnstile of fuzz/xnu/osfmk/fakes/locks.c.
pub mod Laws
use sock_fuzzer.Common.{
  ℕ, Bool, true, false, Option, none, some, List, [], ◌∷◌, ◌++◌, Outcome, ok, stop, assert_failed,
  if◌then◌else◌,
}
use sock_fuzzer.Lock.Action
use sock_fuzzer.Lock.{
  WaitResult, awakened, is_waiting, Mode, spin, ticket, LockCall, waitq_assert_wait, thread_block,
  unlock, lock, bucket_lock, bucket_unlock, prepare_hash, complete_hash, set_block_hint,
  update_inheritor, update_inheritor_complete, turnstile_cleanup, wakeup_identify, wakeup_all,
  thread_deallocate, Inheritor, delayed_thread, immediate_null, Answers,
}

-- `primitive_lock` and `primitive_unlock` are the calls of the blocks that the caller passes.
unfoldable pub sleep_with_inheritor_and_turnstile :
    (event inheritor interruptible deadline : ℕ)
    → (primitive_lock primitive_unlock : List LockCall) → Answers
    → List LockCall × WaitResult
sleep_with_inheritor_and_turnstile event inheritor interruptible deadline primitive_lock
      primitive_unlock s =
    (
      bucket_lock (some event)
          ∷ (primitive_unlock
              ++ (prepare_hash event
                  ∷ set_block_hint
                  ∷ update_inheritor (delayed_thread inheritor)
                  ∷ waitq_assert_wait event interruptible deadline s.asserted
                  ∷ bucket_unlock
                  ∷ update_inheritor_complete
                  ∷ ((if is_waiting s.asserted then thread_block ∷ [] else [])
                      ++ (bucket_lock none
                          ∷ complete_hash event
                          ∷ bucket_unlock
                          ∷ turnstile_cleanup
                          ∷ primitive_lock)))),
      if is_waiting s.asserted then s.blocked else s.asserted,
    )

-- The two callers differ in the kind of lock alone. They do not check the action.
unfoldable pub lck_sleep_with_inheritor :
    Mode
    → (action event inheritor interruptible deadline : ℕ) → Answers
    → List LockCall × WaitResult
unfolding sleep_with_inheritor_and_turnstile
lck_sleep_with_inheritor kind action event inheritor interruptible deadline s =
    if Action.unlocks action
    then sleep_with_inheritor_and_turnstile event inheritor interruptible deadline [] (unlock ∷ [])
        s
    else sleep_with_inheritor_and_turnstile event inheritor interruptible deadline (lock kind ∷ [])
        (unlock ∷ []) s

unfoldable pub lck_spin_sleep_with_inheritor :
    (action event inheritor interruptible deadline : ℕ) → Answers → List LockCall × WaitResult
unfolding lck_sleep_with_inheritor
lck_spin_sleep_with_inheritor = lck_sleep_with_inheritor spin

unfoldable pub lck_ticket_sleep_with_inheritor :
    (action event inheritor interruptible deadline : ℕ) → Answers → List LockCall × WaitResult
unfolding lck_sleep_with_inheritor
lck_ticket_sleep_with_inheritor = lck_sleep_with_inheritor ticket

-- lck_wake_action_t: LCK_WAKE_DEFAULT, which wakeup_all_with_inheritor passes as 0,
-- LCK_WAKE_DO_NOT_TRANSFER_PUSH, or any other value.
pub data WakeAction : Type 0 where
  wake_default do_not_transfer_push other_action : WakeAction

abbrev pub is_default : WakeAction → Bool
is_default wake_default = true
is_default _ = false

abbrev pub keeps_push : WakeAction → Bool
keeps_push do_not_transfer_push = true
keeps_push _ = false

-- kern_return_t, of which these functions give two values, or pass on what waitq_wakeup64_all gives.
pub data KernReturn : Type 0 where
  success not_waiting : KernReturn
  passed_on : (code : ℕ) → KernReturn

-- The calls, the result, and what is stored through `thread_wokenup`, none if nothing is.
pub record Woken : Type 0 where
  pub calls : List LockCall
  pub result : KernReturn
  pub stored : Option (Option ℕ)

-- From the label `complete` on.
abbrev pub complete_calls : (event : ℕ) → List LockCall
complete_calls event = complete_hash event ∷ bucket_unlock ∷ turnstile_cleanup ∷ []

-- From the update of the old inheritor's chain on.
abbrev pub settle_calls : (event : ℕ) → List LockCall
settle_calls event =
    bucket_unlock ∷ update_inheritor_complete ∷ bucket_lock none ∷ complete_calls event

-- `wants_thread` is whether `thread_wokenup` is not null; `wokeup` is the thread that
-- waitq_wakeup64_identify finds, `all_code` what waitq_wakeup64_all returns.
unfoldable pub wakeup_with_inheritor_and_turnstile :
    (event : ℕ)
    → (result : WaitResult) → (wake_one : Bool) → WakeAction
    → (wants_thread : Bool) → (wokeup : Option ℕ) → (all_code : ℕ) → Outcome Woken
wakeup_with_inheritor_and_turnstile event result wake_one action wants_thread wokeup all_code =
    let start = bucket_lock (some event) ∷ prepare_hash event ∷ [] in
    if wake_one
    then (if is_default action
        then ok (one start true)
        else if keeps_push action
        then ok (one start false)
        else stop assert_failed)
    else ok (record {
      calls = start ++ wakeup_all event result ∷ settle_calls event;
      result = passed_on all_code;
      stored = none;
    })
  where
    one : List LockCall → Bool → Woken
    one start update = elim wokeup [
      | none ↦ record {
        calls =
            start
            ++ (wakeup_identify event result update
                ∷ update_inheritor immediate_null
                ∷ settle_calls event);
        result = not_waiting;
        stored = if wants_thread then some none else none;
      }
      | some t ↦ record {
        calls =
            start
            ++ (wakeup_identify event result update
                ∷ ((if wants_thread then [] else thread_deallocate t ∷ [])
                    ++ (if keeps_push action then complete_calls event else settle_calls event)));
        result = success;
        stored = if wants_thread then some (some t) else none;
      }
    ]

unfoldable pub wakeup_one_with_inheritor :
    (event : ℕ)
    → (result : WaitResult) → WakeAction
    → (wants_thread : Bool) → (wokeup : Option ℕ) → Outcome Woken
unfolding wakeup_with_inheritor_and_turnstile
wakeup_one_with_inheritor event result action wants_thread wokeup =
    wakeup_with_inheritor_and_turnstile event result true action wants_thread wokeup 0

unfoldable pub wakeup_all_with_inheritor :
    (event : ℕ) → (result : WaitResult) → (all_code : ℕ) → Outcome Woken
unfolding wakeup_with_inheritor_and_turnstile
wakeup_all_with_inheritor event result all_code =
    wakeup_with_inheritor_and_turnstile event result false wake_default false none all_code
