-- ===== src/Walk/Tests.antt =====
-- A queue of three tasks, and a thread that waits uninterruptibly.
use sock_fuzzer.Common.{◌≡◌, true, false, none, [], ◌∷◌, arith}
use sock_fuzzer.Lock.{WaitResult}
use sock_fuzzer.Thread.{Thread}
use sock_fuzzer.Walk.{get_task, get_thread}
use sock_fuzzer.Walk.Laws.{walk, get_task-walk}

get_task-walk_example :
    (walk (get_task (7 ∷ 8 ∷ 9 ∷ [])) 3 none ≡ 7 ∷ 8 ∷ 9 ∷ [])
    × (walk (get_thread (7 ∷ 8 ∷ 9 ∷ [])) 3 none ≡ 7 ∷ 8 ∷ 9 ∷ [])
get_task-walk_example =
    get_task-walk (7 ∷ 8 ∷ 9 ∷ []) 3
      (((λ e. omega arith), ((λ e. omega arith), tt)), (((λ e. omega arith), tt), (tt, tt)))
      (omega arith)

abbrev waits : Thread
waits = record {
  waiting = true;
  suspended = false;
  suspended_runnable = false;
  terminating = false;
  uninterruptible = true;
  wait_report = false;
  enqueued = false;
  runnable = true;
  wait_result = WaitResult.waiting;
  sched_abort = false;
  sched_abort_safely = false;
  sched_call = false;
  at_safe_point = false;
  wake_active = false;
  timer_armed = false;
  timer_active = 0;
}
