-- ===== src/Thread/Tests.antt =====
-- Concrete threads: one that waits, one that is suspended until its second turn.
use sock_fuzzer.Common.{
  ℕ, zero, suc, ◌-◌, ◌<◌, ◌≡◌, ◌≢◌, ◌↔◌, ◌⊎◌, refl, true, false, some, ok, if◌then◌else◌, arith,
  ◌==◌,
}
use sock_fuzzer.Lock.{WaitResult}
use sock_fuzzer.Thread.{Thread, set_suspended}
use sock_fuzzer.Thread.Wait.{
  WaitInterrupt, busy, reports, begin_wait, refuse_wait, thread_mark_wait_locked, thread_wakeup,
}
use sock_fuzzer.Thread.Wait.Laws.{
  IsThread, IsBegun, IsRefused, thread_mark_wait_locked-interrupted,
  thread_wakeup-thread_mark_wait_locked,
}
use sock_fuzzer.Thread.Stop.{Turn, is_awakened, await_wake, thread_signal_wake, thread_stop}
use sock_fuzzer.Thread.Stop.Laws.{AllAwakened, after_turns, thread_stop-end}

abbrev idle : Thread
idle = record {
  waiting = false;
  suspended = false;
  suspended_runnable = false;
  terminating = false;
  uninterruptible = false;
  wait_report = false;
  enqueued = false;
  runnable = true;
  wait_result = WaitResult.awakened;
  sched_abort = false;
  sched_abort_safely = false;
  sched_call = true;
  at_safe_point = false;
  wake_active = false;
  timer_armed = false;
  timer_active = 0;
}

-- A wait under THREAD_ABORTSAFE, with the values 0 for THREAD_UNINT and 2 for THREAD_ABORTSAFE.
abbrev safe_wait : WaitInterrupt
safe_wait = record { masked = 2; noreport_user = false; noreport_kernel = false }

abbrev waits : Thread
waits = begin_wait 0 2 false safe_wait idle

started : thread_mark_wait_locked 0 2 true false safe_wait idle ≡ ok (WaitResult.waiting, waits)
unfolding thread_mark_wait_locked
started = refl

abbrev aborted_thread : Thread
aborted_thread = record idle { sched_abort = true; sched_abort_safely = true }

thread_mark_wait_locked-interrupted_example :
    (r : WaitResult × Thread) × (thread_mark_wait_locked 0 2 true false safe_wait aborted_thread
      ≡ ok r)
    × ((r.0 ≡ WaitResult.interrupted)
        ↔ ((◌≢◌ {A = ℕ} 2 0) × (true ≡ true) × ((true ≡ false) ⊎ (◌≡◌ {A = ℕ} 2 2))))
    × (IsRefused 0 2 aborted_thread r ⊎ IsBegun 0 2 false safe_wait aborted_thread r)
thread_mark_wait_locked-interrupted_example =
    thread_mark_wait_locked-interrupted 0 2 true false safe_wait aborted_thread refl

aborted_refused :
    thread_mark_wait_locked 0 2 true false safe_wait aborted_thread
    ≡ ok (WaitResult.interrupted, refuse_wait 0 2 aborted_thread)
unfolding thread_mark_wait_locked
aborted_refused = refl

thread_wakeup-thread_mark_wait_locked_example :
    let woken = thread_wakeup true (λ n. n - 1) WaitResult.timed_out waits in
    IsThread woken.1
    × (woken.1.runnable ≡ true)
    × (busy woken.1 ≡ false)
    × (woken.1.wait_result ≡ WaitResult.timed_out)
    × ((woken.0 ≡ false) ⊎ (reports false safe_wait idle ≡ true))
thread_wakeup-thread_mark_wait_locked_example =
    thread_wakeup-thread_mark_wait_locked 0 2 true false true (λ n. n - 1) safe_wait idle waits
      WaitResult.timed_out refl started

abbrev held : Thread
held = record idle { suspended = true }

-- In turn 1 another thread lifts the suspension; the waits of the world below it time out.
abbrev helpful : ℕ → Turn
helpful i = record {
  asserted = WaitResult.waiting;
  blocked = WaitResult.awakened;
  meanwhile = λ t. if i == 1 then record t { suspended = false; runnable = false } else t;
}

abbrev late : ℕ → Turn
late i = record {
  asserted = WaitResult.waiting;
  blocked = if i == 1 then WaitResult.timed_out else WaitResult.awakened;
  meanwhile = λ t. t;
}

helped : AllAwakened helpful 2 0 held
unfolding AllAwakened await_wake
helped = (refl, refl, (refl, refl, tt))

freed : (after_turns helpful 2 0 held).suspended ≡ false
unfolding await_wake
freed = refl

stopped : (after_turns helpful 2 0 held).runnable ≡ false
unfolding await_wake
stopped = refl

runs : (j : ℕ) → j < 2 → (after_turns helpful j 0 held).runnable ≡ true
unfolding await_wake
runs zero h = refl
runs (suc zero) h = refl
runs (suc (suc j)) h = absurd (omega arith)

first_turn : AllAwakened late 1 0 held
unfolding AllAwakened await_wake
first_turn = (refl, refl, tt)

still : (after_turns late 1 0 held).suspended ≡ true
unfolding await_wake
still = refl

timed : is_awakened (await_wake (late 1) (after_turns late 1 0 held)).0 ≡ false
unfolding await_wake
timed = refl

-- The wake-up is signalled once.
signalled : thread_signal_wake (record idle { wake_active = true }) ≡ (true, idle)
unfolding thread_signal_wake
signalled = refl

thread_stop-end_example :
    (thread_stop helpful true 5 held ≡ some (true, set_suspended (after_turns helpful 2 0 held)))
    × ((set_suspended (after_turns helpful 2 0 held)).suspended ≡ true)
    × ((set_suspended (after_turns helpful 2 0 held)).runnable ≡ false)
thread_stop-end_example = thread_stop-end helpful true 2 5 held (omega arith) helped freed
