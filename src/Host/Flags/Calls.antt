-- ===== src/Host/Flags/Calls.antt =====
-- The hypercalls on a thread's flags, what each does to the host and to XNU's thread, and what it
-- does to one thread as the thread sees it. The hypercalls that block or yield, and those that create, select or end a
-- thread, are not among these. That ThreadSetQueuedForTermination also puts the thread on XNU's queue is not seen here.
use sock_fuzzer.Common.{ℕ, Bool, true, false, List, [], ◌∷◌, update}
use sock_fuzzer.Lock.{WaitResult}
use sock_fuzzer.Thread.{Thread}
use sock_fuzzer.Thread.Wait.{thread_cancel_wait_timer}
use sock_fuzzer.Thread
use sock_fuzzer.Thread.Wait
use sock_fuzzer.Host.{Host, Scheduler, get_wait_result}
use sock_fuzzer.Host.Flags.{
  set_enqueued, set_waiting, set_wait_report, set_uninterruptible, set_terminating, set_wait_result,
  clear_wait, is_runnable, set_runnable, set_not_runnable, set_suspended, set_not_suspended,
  thread_wakeup,
}

-- ThreadGo is the wake-up; `cancelled` is what timer_call_cancel answers in it.
pub data Hypercall : Type 0 where
  thread_set_waiting thread_set_not_waiting : Hypercall
  thread_set_wait_report thread_set_not_wait_report : Hypercall
  thread_set_uninterruptible thread_set_not_uninterruptible : Hypercall
  thread_set_uninterruptible_wait thread_clear_uninterruptible_wait : Hypercall
  thread_set_terminating thread_set_queued_for_termination : Hypercall
  thread_set_suspended thread_set_not_suspended : Hypercall
  thread_set_runnable thread_set_not_runnable : Hypercall
  thread_set_wait_result thread_clear_wait : WaitResult → Hypercall
  thread_go : (cancelled : Bool) → WaitResult → Hypercall

-- The host, and the part of each thread that XNU keeps.
pub record Machine (S Name : Type 0) : Type 0 where
  pub host : Host S Name
  pub xnu : ℕ → Thread

-- `decrement` is the -- of the type of wait_timer_active.
abbrev pub on_xnu : (decrement : ℕ → ℕ) → Hypercall → Thread → Thread
on_xnu decrement (thread_go cancelled result) t = thread_cancel_wait_timer cancelled decrement t
on_xnu decrement _ t = t

module _ {S Name : Type 0} (sched : Scheduler S) where
  -- A thread as the machine shows it.
  abbrev pub view : Machine S Name → ℕ → Thread
  view m thread = record (m.xnu thread) {
    waiting = m.host.waiting thread;
    suspended = m.host.suspended thread;
    suspended_runnable = m.host.suspended_runnable thread;
    terminating = m.host.terminating thread;
    uninterruptible = m.host.uninterruptible thread;
    wait_report = m.host.wait_report thread;
    enqueued = m.host.enqueued thread;
    runnable = is_runnable sched m.host thread;
    wait_result = get_wait_result m.host thread;
  }

  unfoldable pub on_host : Hypercall → (thread : ℕ) → Host S Name → Host S Name
  on_host thread_set_waiting t host = set_waiting t true host
  on_host thread_set_not_waiting t host = set_waiting t false host
  on_host thread_set_wait_report t host = set_wait_report t true host
  on_host thread_set_not_wait_report t host = set_wait_report t false host
  on_host thread_set_uninterruptible t host = set_uninterruptible t true host
  on_host thread_set_not_uninterruptible t host = set_uninterruptible t false host
  on_host thread_set_uninterruptible_wait t host =
      set_uninterruptible t true (set_waiting t true host)
  on_host thread_clear_uninterruptible_wait t host =
      set_uninterruptible t false (set_waiting t false host)
  on_host thread_set_terminating t host = set_terminating t host
  on_host thread_set_queued_for_termination t host = set_enqueued t true host
  on_host thread_set_suspended t host = set_suspended sched t host
  on_host thread_set_not_suspended t host = set_not_suspended sched t host
  on_host thread_set_runnable t host = set_runnable sched t host
  on_host thread_set_not_runnable t host = set_not_runnable sched t host
  on_host (thread_set_wait_result result) t host = set_wait_result t result host
  on_host (thread_clear_wait result) t host = clear_wait t result host
  on_host (thread_go cancelled result) t host = (thread_wakeup sched t result host).1

  -- `decrement` is the -- of the type of wait_timer_active.
  abbrev pub call : (decrement : ℕ → ℕ) → Hypercall → (thread : ℕ) → Machine S Name → Machine S Name
  call decrement hypercall thread m = record {
    host = on_host hypercall thread m.host;
    xnu = update m.xnu thread (on_xnu decrement hypercall (m.xnu thread));
  }

  abbrev pub run : (decrement : ℕ → ℕ) → List (Hypercall × ℕ) → Machine S Name → Machine S Name
  run decrement [] m = m
  run decrement ((hypercall, thread) ∷ calls) m =
      run decrement calls (call decrement hypercall thread m)

-- The same hypercalls on one thread that stands alone.
module _ (decrement : ℕ → ℕ) where
  unfoldable pub on_thread : Hypercall → Thread → Thread
  on_thread thread_set_waiting t = record t { waiting = true }
  on_thread thread_set_not_waiting t = record t { waiting = false }
  on_thread thread_set_wait_report t = record t { wait_report = true }
  on_thread thread_set_not_wait_report t = record t { wait_report = false }
  on_thread thread_set_uninterruptible t = record t { uninterruptible = true }
  on_thread thread_set_not_uninterruptible t = record t { uninterruptible = false }
  on_thread thread_set_uninterruptible_wait t = record t { waiting = true; uninterruptible = true }
  on_thread thread_clear_uninterruptible_wait t = record t {
    waiting = false;
    uninterruptible = false;
  }
  on_thread thread_set_terminating t = record t { terminating = true }
  on_thread thread_set_queued_for_termination t = record t { enqueued = true }
  on_thread thread_set_suspended t = Thread.set_suspended t
  on_thread thread_set_not_suspended t = Thread.set_not_suspended t
  on_thread thread_set_runnable t = record t { runnable = true }
  on_thread thread_set_not_runnable t = record t { runnable = false }
  on_thread (thread_set_wait_result result) t = record t { wait_result = result }
  on_thread (thread_clear_wait result) t = Thread.clear_wait result t
  on_thread (thread_go cancelled result) t = (Wait.thread_wakeup cancelled decrement result t).1

  abbrev pub replay : List (Hypercall × ℕ) → (ℕ → Thread) → ℕ → Thread
  replay [] threads = threads
  replay ((hypercall, thread) ∷ calls) threads =
      replay calls (update threads thread (on_thread hypercall (threads thread)))
