-- ===== src/Thread.antt =====
-- The state of a thread: the flags that fuzz/host/host.cc keeps for it and the fields of XNU's thread
-- that fuzz/xnu/osfmk/api/thread.c reads or writes, with the host's operations on the flags.
pub mod Wait
pub mod Stop
mod Tests
use sock_fuzzer.Common.{ℕ, Bool, true, false, ◌||◌, if◌then◌else◌}
use sock_fuzzer.Lock.{WaitResult}

-- The first nine fields are the host's: whether the thread is in waiting_, suspended_,
-- suspended_runnable_, terminating_, uninterruptible_, wait_report_ and enqueued_for_termination_,
-- whether the scheduler has it as runnable, and its entry in wait_results_. Then XNU's:
-- TH_SFLAG_ABORT and TH_SFLAG_ABORTSAFELY of sched_flags, whether sched_call is set, at_safe_point,
-- wake_active, wait_timer_armed and wait_timer_active.
pub record Thread : Type 0 where
  pub waiting : Bool
  pub suspended : Bool
  pub suspended_runnable : Bool
  pub terminating : Bool
  pub uninterruptible : Bool
  pub wait_report : Bool
  pub enqueued : Bool
  pub runnable : Bool
  pub wait_result : WaitResult
  pub sched_abort : Bool
  pub sched_abort_safely : Bool
  pub sched_call : Bool
  pub at_safe_point : Bool
  pub wake_active : Bool
  pub timer_armed : Bool
  pub timer_active : ℕ

unfoldable pub set_suspended : Thread → Thread
set_suspended t =
    if t.runnable
    then record t { suspended = true; suspended_runnable = true; runnable = false }
    else record t { suspended = true }

unfoldable pub set_not_suspended : Thread → Thread
set_not_suspended t =
    if t.suspended_runnable
    then record t { suspended = false; suspended_runnable = false; runnable = true }
    else record t { suspended = false }

abbrev pub should_block : Thread → Bool
should_block t = t.terminating || t.waiting || t.suspended

-- ThreadClearWait of fuzz/host/hypercall/hypercall.cc.
abbrev pub clear_wait : WaitResult → Thread → Thread
clear_wait result t = record t {
  waiting = false;
  wait_report = false;
  uninterruptible = false;
  wait_result = result;
}
