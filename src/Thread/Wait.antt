-- ===== src/Thread/Wait.antt =====
-- XNUThreadMarkWaitLocked and XNUThreadCancelWaitTimer of fuzz/xnu/osfmk/api/thread.c, and
-- ThreadWakeup of fuzz/host/host.cc, which ends a wait.
pub mod Laws
use sock_fuzzer.Common.{
  ℕ, Bool, true, false, not, ◌&&◌, ◌||◌, Outcome, ok, stop, aborted, if◌then◌else◌, ◌==◌,
}
use sock_fuzzer.Lock.{WaitResult}
use sock_fuzzer.Thread.{Thread, should_block, clear_wait}

-- A wait_interrupt_t: its part under TH_OPT_INTMASK, THREAD_WAIT_NOREPORT_USER and
-- THREAD_WAIT_NOREPORT_KERNEL.
pub record WaitInterrupt : Type 0 where
  pub masked : ℕ
  pub noreport_user : Bool
  pub noreport_kernel : Bool

-- The assertion of a debug build.
abbrev pub busy : Thread → Bool
busy t = t.waiting || t.uninterruptible || t.enqueued || t.wait_report

-- Whether sched_call asks for a report of this wait.
abbrev pub reports : (kernel_task : Bool) → WaitInterrupt → Thread → Bool
reports kernel_task o t =
    t.sched_call && not (if kernel_task then o.noreport_kernel else o.noreport_user)

-- XNU gives the values of THREAD_UNINT and THREAD_ABORTSAFE. `debug` is a build without NDEBUG. The
-- host holds no thread to be idle.
module _ (thread_unint thread_abortsafe : ℕ) where
  abbrev pub will_wait : WaitInterrupt → Thread → Bool
  will_wait o t =
      (o.masked == thread_unint)
      || not t.sched_abort
      || (not (o.masked == thread_abortsafe) && t.sched_abort_safely)

  -- The thread once it waits.
  abbrev pub begin_wait : (kernel_task : Bool) → WaitInterrupt → Thread → Thread
  begin_wait kernel_task o t = record t {
    waiting = true;
    uninterruptible = if o.masked == 0 then true else t.uninterruptible;
    wait_report = if reports kernel_task o t then true else t.wait_report;
    at_safe_point = o.masked == thread_abortsafe;
    wait_result = WaitResult.waiting;
  }

  -- The thread whose wait is interrupted. TH_SFLAG_ABORTED_MASK holds both flags.
  abbrev pub refuse_wait : Thread → Thread
  refuse_wait t =
      record (if t.sched_abort_safely
        then record t { sched_abort = false; sched_abort_safely = false }
        else t) { wait_result = WaitResult.interrupted }

  unfoldable pub thread_mark_wait_locked :
      (debug kernel_task : Bool) → WaitInterrupt → Thread → Outcome (WaitResult × Thread)
  thread_mark_wait_locked debug kernel_task o t =
      if debug && busy t
      then stop aborted
      else if will_wait o t
      then ok (WaitResult.waiting, begin_wait kernel_task o t)
      else ok (WaitResult.interrupted, refuse_wait t)

-- `cancelled` is what timer_call_cancel answers, `decrement` the -- of the counter's type.
unfoldable pub thread_cancel_wait_timer : (cancelled : Bool) → (decrement : ℕ → ℕ) → Thread → Thread
thread_cancel_wait_timer cancelled decrement t =
    if t.timer_armed
    then record t {
      timer_armed = false;
      timer_active = if cancelled then decrement t.timer_active else t.timer_active;
    }
    else t

-- The first component is whether the wake-up is reported to sched_call.
unfoldable pub thread_wakeup :
    (cancelled : Bool) → (decrement : ℕ → ℕ) → WaitResult → Thread → Bool × Thread
unfolding thread_cancel_wait_timer
thread_wakeup cancelled decrement result t =
    let t₁ = thread_cancel_wait_timer cancelled decrement t in
    let t₂ = clear_wait result t₁ in
    if t₂.runnable && not (should_block t₂)
    then (false, t₂)
    else (t₁.wait_report, record t₂ { runnable = true })
