-- ===== src/Thread/Wait/Laws.antt =====
-- On XNUThreadMarkWaitLocked of fuzz/xnu/osfmk/api/thread.c and the wake-up.
use sock_fuzzer.Common.{
  ℕ, Bool, true, false, ok, if◌then◌else◌, ◌≡◌, ◌≢◌, ◌↔◌, ◌⊎◌, inl, inr, arith, Bool-cases, refl,
  not, ◌&&◌, ◌==◌,
}
use sock_fuzzer.Lock.{WaitResult}
use sock_fuzzer.Thread.{Thread}
use sock_fuzzer.Thread.Wait.{
  WaitInterrupt, busy, reports, will_wait, begin_wait, refuse_wait, thread_mark_wait_locked,
  thread_wakeup,
}

-- A thread is uninterruptible, or wants a report, only while it waits, and its recorded result says
-- that it waits if it does.
pub record IsThread (t : Thread) : Type 0 where
  pub uninterruptible : t.uninterruptible ≡ true → t.waiting ≡ true
  pub wait_report : t.wait_report ≡ true → t.waiting ≡ true
  pub wait_result : t.waiting ≡ true → t.wait_result ≡ WaitResult.waiting

module _ (thread_unint thread_abortsafe : ℕ) where
  -- Marking a well-formed thread that does not wait keeps it well formed, where it does not abort.
  -- The result is the one recorded for the thread, and is THREAD_WAITING exactly if the thread now
  -- waits.
  pub thread_mark_wait_locked-IsThread :
      (debug kernel_task : Bool) (o : WaitInterrupt) (t : Thread) (result : WaitResult)
      (t' : Thread)
      → IsThread t
      → t.waiting ≡ false
      → thread_mark_wait_locked thread_unint thread_abortsafe debug kernel_task o t
        ≡ ok (result, t')
      → IsThread t'
        × (t'.wait_result ≡ result)
        × ((t'.waiting ≡ true) ↔ (result ≡ WaitResult.waiting))
  unfolding thread_mark_wait_locked
  thread_mark_wait_locked-IsThread debug kernel_task o t result t' v idle e = (
    record {
      uninterruptible = ground (arith, v.uninterruptible, v.wait_report);
      wait_report = ground (arith, v.uninterruptible, v.wait_report);
      wait_result = ground arith;
    },
    ground arith,
    (λ w. ground arith, λ w. ground arith),
  )

  -- The answer and the thread of a wait that begins.
  pub record IsBegun (kernel_task : Bool) (o : WaitInterrupt) (t : Thread) (r : WaitResult × Thread)
      : Type 0 where
    pub answer : r.0 ≡ WaitResult.waiting
    pub waiting : r.1.waiting ≡ true
    pub wait_result : r.1.wait_result ≡ WaitResult.waiting
    pub uninterruptible : r.1.uninterruptible ≡ (o.masked == 0)
    pub at_safe_point : r.1.at_safe_point ≡ (o.masked == thread_abortsafe)
    pub wait_report :
        r.1.wait_report
        ≡ (t.sched_call && not (if kernel_task then o.noreport_kernel else o.noreport_user))
    pub sched_abort : r.1.sched_abort ≡ t.sched_abort
    pub sched_abort_safely : r.1.sched_abort_safely ≡ t.sched_abort_safely

  -- The answer and the thread of a wait that is interrupted.
  pub record IsRefused (t : Thread) (r : WaitResult × Thread) : Type 0 where
    pub answer : r.0 ≡ WaitResult.interrupted
    pub idle : r.1.waiting ≡ false
    pub wait_result : r.1.wait_result ≡ WaitResult.interrupted
    pub sched_abort : r.1.sched_abort ≡ not t.sched_abort_safely
    pub sched_abort_safely : r.1.sched_abort_safely ≡ false

  -- Marking a thread that nothing marks as busy never aborts, in debug builds too. The wait is interrupted exactly
  -- if an abort is pending, the wait is not THREAD_UNINT, and the abort is a plain one or the wait is
  -- THREAD_ABORTSAFE. An interrupted wait leaves the thread not waiting, with the result
  -- THREAD_INTERRUPTED, and takes the pending abort away if it was asked for safely. Any other wait begins: the thread waits with the result THREAD_WAITING, is
  -- uninterruptible if the masked word is 0 and at a safe point if it is THREAD_ABORTSAFE, reports the wait if
  -- sched_call and the flags ask for it, and a pending abort stays.
  pub thread_mark_wait_locked-interrupted :
      (debug kernel_task : Bool) (o : WaitInterrupt) (t : Thread)
      → busy t ≡ false
      → (r : WaitResult × Thread) × (thread_mark_wait_locked thread_unint thread_abortsafe debug
            kernel_task o t
          ≡ ok r)
        × ((r.0 ≡ WaitResult.interrupted) ↔ (
            (o.masked ≢ thread_unint)
            × (t.sched_abort ≡ true)
            × ((t.sched_abort_safely ≡ false) ⊎ (o.masked ≡ thread_abortsafe))))
        × (IsRefused t r ⊎ IsBegun kernel_task o t r)
  unfolding thread_mark_wait_locked
  thread_mark_wait_locked-interrupted debug kernel_task o t idle = (
    (if will_wait thread_unint thread_abortsafe o t
        then (WaitResult.waiting, begin_wait thread_unint thread_abortsafe kernel_task o t)
        else (WaitResult.interrupted, refuse_wait thread_unint thread_abortsafe t)),
    ground arith,
    (λ e. ground arith, λ h. ground arith),
    elim (Bool-cases (will_wait thread_unint thread_abortsafe o t)) [
      | inl begins ↦ rw begins (
          inr (record {
            answer = refl;
            waiting = refl;
            wait_result = refl;
            uninterruptible = ground arith;
            at_safe_point = refl;
            wait_report = ground arith;
            sched_abort = refl;
            sched_abort_safely = refl;
          }))
      | inr stops ↦ rw stops (
          inl (record {
            answer = refl;
            idle = ground arith;
            wait_result = refl;
            sched_abort = ground arith;
            sched_abort_safely = ground arith;
          }))
    ],
  )

  -- An abort that was asked for safely interrupts one wait: the next wait, whatever its kind, begins.
  pub thread_mark_wait_locked_twice :
      (debug kernel_task : Bool) (o o' : WaitInterrupt) (t t' : Thread)
      → busy t ≡ false
      → t.sched_abort_safely ≡ true
      → thread_mark_wait_locked thread_unint thread_abortsafe debug kernel_task o t
        ≡ ok (WaitResult.interrupted, t')
      → (t'' : Thread) × (thread_mark_wait_locked thread_unint thread_abortsafe debug kernel_task o'
            t'
          ≡ ok (WaitResult.waiting, t''))
  unfolding thread_mark_wait_locked
  thread_mark_wait_locked_twice debug kernel_task o o' t t' idle safely e =
      (begin_wait thread_unint thread_abortsafe kernel_task o' t', ground arith)

  -- Waking a thread that began a wait: it is well formed, runnable, no longer waiting and free to wait
  -- again, and it has the result of the wake-up. sched_call hears of it only if it asked for a report.
  pub thread_wakeup-thread_mark_wait_locked :
      (debug kernel_task cancelled : Bool) (decrement : ℕ → ℕ) (o : WaitInterrupt) (t t' : Thread)
      (result : WaitResult)
      → busy t ≡ false
      → thread_mark_wait_locked thread_unint thread_abortsafe debug kernel_task o t
        ≡ ok (WaitResult.waiting, t')
      → let woken = thread_wakeup cancelled decrement result t' in
        IsThread woken.1
        × (woken.1.runnable ≡ true)
        × (busy woken.1 ≡ false)
        × (woken.1.wait_result ≡ result)
        × ((woken.0 ≡ false) ⊎ (reports kernel_task o t ≡ true))
  unfolding thread_mark_wait_locked thread_wakeup
  thread_wakeup-thread_mark_wait_locked debug kernel_task cancelled decrement o t t' result idle e =
      (
        record {
          uninterruptible = ground arith;
          wait_report = ground arith;
          wait_result = ground arith;
        },
        ground arith,
        ground arith,
        ground arith,
        told (Bool-cases (reports kernel_task o t)),
      )
    where
      told :
          ((reports kernel_task o t ≡ true) ⊎ (reports kernel_task o t ≡ false))
          → ((thread_wakeup cancelled decrement result t').0 ≡ false)
            ⊎ (reports kernel_task o t ≡ true)
      told (inl asked) = inr asked
      told (inr quiet) = inl (ground arith)
