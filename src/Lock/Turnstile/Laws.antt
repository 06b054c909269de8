-- ===== src/Lock/Turnstile/Laws.antt =====
-- On the functions of fuzz/xnu/osfmk/fakes/locks.c that sleep and wake by a turnstile.
use sock_fuzzer.Common.{ℕ, Bool, Option, none, some, ok, ◌≡◌, ◌≢◌, refl, if◌then◌else◌, arith}
use sock_fuzzer.Lock.Action
use sock_fuzzer.Lock.{WaitResult, is_waiting, Mode, Answers}
use sock_fuzzer.Lock.Discipline.{at_rest, run}
use sock_fuzzer.Lock.Turnstile.{
  lck_sleep_with_inheritor, WakeAction, wake_default, do_not_transfer_push, other_action, success,
  not_waiting, passed_on, Woken, wakeup_one_with_inheritor, wakeup_all_with_inheritor,
}

-- Sleeping by a turnstile on a held lock: the lock is released under the bucket's lock, the thread
-- blocks with neither, the turnstile is given back, and the lock ends held unless LCK_SLEEP_UNLOCK
-- is set.
pub lck_sleep_with_inheritor-run :
    (kind : Mode) (action event inheritor interruptible deadline : ℕ) (s : Answers)
    → (run
          (at_rest (some kind))
          (lck_sleep_with_inheritor kind action event inheritor interruptible deadline s).0
        ≡ some (at_rest (if Action.unlocks action then none else some kind)))
      × ((lck_sleep_with_inheritor kind action event inheritor interruptible deadline s).1
          ≡ (if is_waiting s.asserted then s.blocked else s.asserted))
unfolding lck_sleep_with_inheritor run
lck_sleep_with_inheritor-run kind action event inheritor interruptible deadline s =
    (ground arith, ground arith)

-- What waking one thread is to give: success exactly when a thread was found, and that thread, or
-- none, to a caller who asks for it.
pub record WakesOne (wants_thread : Bool) (wokeup : Option ℕ) (w : Woken) : Type 0 where
  pub in_order : run (at_rest none) w.calls ≡ some (at_rest none)
  pub result : w.result ≡ elim wokeup [ none ↦ not_waiting | some t ↦ success ]
  pub stored : w.stored ≡ (if wants_thread then some wokeup else none)

-- Waking one thread with a valid action keeps the calls in order, and reports what it found.
pub wakeup_one_with_inheritor-WakesOne :
    (event : ℕ) (result : WaitResult) (action : WakeAction) (wants_thread : Bool)
    (wokeup : Option ℕ)
    → action ≢ other_action
    → (w : Woken) × (wakeup_one_with_inheritor event result action wants_thread wokeup ≡ ok w)
      × WakesOne wants_thread wokeup w
unfolding wakeup_one_with_inheritor run
wakeup_one_with_inheritor-WakesOne event result wake_default wants_thread none ne =
    (_, refl, ground arith)
wakeup_one_with_inheritor-WakesOne event result wake_default wants_thread (some t) ne =
    (_, refl, ground arith)
wakeup_one_with_inheritor-WakesOne event result do_not_transfer_push wants_thread none ne =
    (_, refl, ground arith)
wakeup_one_with_inheritor-WakesOne event result do_not_transfer_push wants_thread (some t) ne =
    (_, refl, ground arith)
wakeup_one_with_inheritor-WakesOne event result other_action wants_thread wokeup ne =
    absurd (ne refl)

-- Waking all threads keeps the calls in order and returns what the wait queue returns.
pub wakeup_all_with_inheritor-run :
    (event : ℕ) (result : WaitResult) (all_code : ℕ)
    → (w : Woken) × (wakeup_all_with_inheritor event result all_code ≡ ok w)
      × (run (at_rest none) w.calls ≡ some (at_rest none))
      × (w.result ≡ passed_on all_code)
unfolding wakeup_all_with_inheritor run
wakeup_all_with_inheritor-run event result all_code = (_, refl, refl, refl)
