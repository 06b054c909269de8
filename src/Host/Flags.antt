-- ===== src/Host/Flags.antt =====
-- The operations of fuzz/host/host.cc on the flags of a thread, and the hypercalls of
-- fuzz/host/hypercall/hypercall.cc that pass them on to the kernel.
pub mod Calls
pub mod Refinement
pub mod Wakeups
use sock_fuzzer.Common.{ℕ, Bool, true, false, not, ◌&&◌, ◌||◌, some, if◌then◌else◌, update}
use sock_fuzzer.Lock.{WaitResult}
use sock_fuzzer.Host.{Host, Scheduler, thread_t_to_handle}

module _ {S Name : Type 0} where
  abbrev pub set_waiting : (thread : ℕ) → (on : Bool) → Host S Name → Host S Name
  set_waiting thread on host = record host { waiting = update host.waiting thread on }

  abbrev pub set_wait_report : (thread : ℕ) → (on : Bool) → Host S Name → Host S Name
  set_wait_report thread on host = record host { wait_report = update host.wait_report thread on }

  abbrev pub set_uninterruptible : (thread : ℕ) → (on : Bool) → Host S Name → Host S Name
  set_uninterruptible thread on host = record host {
    uninterruptible = update host.uninterruptible thread on;
  }

  abbrev pub set_enqueued : (thread : ℕ) → (on : Bool) → Host S Name → Host S Name
  set_enqueued thread on host = record host { enqueued = update host.enqueued thread on }

  abbrev pub set_terminating : (thread : ℕ) → Host S Name → Host S Name
  set_terminating thread host = record host { terminating = update host.terminating thread true }

  abbrev pub set_wait_result : (thread : ℕ) → WaitResult → Host S Name → Host S Name
  set_wait_result thread result host = record host {
    wait_results = update host.wait_results thread (some result);
  }

  abbrev pub should_block : Host S Name → (thread : ℕ) → Bool
  should_block host thread = host.terminating thread || host.waiting thread || host.suspended thread

  -- ThreadClearWait of hypercall.cc.
  abbrev pub clear_wait : (thread : ℕ) → WaitResult → Host S Name → Host S Name
  clear_wait thread result host = record host {
    waiting = update host.waiting thread false;
    wait_report = update host.wait_report thread false;
    uninterruptible = update host.uninterruptible thread false;
    wait_results = update host.wait_results thread (some result);
  }

  module _ (sched : Scheduler S) where
    abbrev pub is_runnable : Host S Name → (thread : ℕ) → Bool
    is_runnable host thread = sched.is_runnable host.scheduler (thread_t_to_handle host thread)

    abbrev pub set_runnable : (thread : ℕ) → Host S Name → Host S Name
    set_runnable thread host = record host {
      scheduler = sched.make_runnable (thread_t_to_handle host thread) host.scheduler;
    }

    abbrev pub set_not_runnable : (thread : ℕ) → Host S Name → Host S Name
    set_not_runnable thread host = record host {
      scheduler = sched.make_not_runnable (thread_t_to_handle host thread) host.scheduler;
    }

    unfoldable pub set_suspended : (thread : ℕ) → Host S Name → Host S Name
    set_suspended thread host =
        let marked : Host S Name = record host { suspended = update host.suspended thread true } in
        if is_runnable marked thread
        then set_not_runnable thread
            (record marked { suspended_runnable = update marked.suspended_runnable thread true })
        else marked

    unfoldable pub set_not_suspended : (thread : ℕ) → Host S Name → Host S Name
    set_not_suspended thread host =
        let marked : Host S Name = record host { suspended = update host.suspended thread false } in
        if marked.suspended_runnable thread
        then set_runnable thread
            (record marked { suspended_runnable = update marked.suspended_runnable thread false })
        else marked

    -- The part of ThreadWakeup that follows ThreadCancelWaitTimer, which changes XNU's thread only.
    -- The first component is whether sched_call is told.
    unfoldable pub thread_wakeup : (thread : ℕ) → WaitResult → Host S Name → Bool × Host S Name
    thread_wakeup thread result host =
        let cleared = clear_wait thread result host in
        if is_runnable cleared thread && not (should_block cleared thread)
        then (false, cleared)
        else let woken = set_runnable thread cleared in
          (
            host.wait_report thread,
            record woken {
              scheduler = sched.make_runnable (thread_t_to_handle woken thread) woken.scheduler;
            },
          )
