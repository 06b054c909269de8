-- ===== src/Thread/Stop.antt =====
-- XNUThreadStop, XNUThreadWait and XNUThreadSignalWake of fuzz/xnu/osfmk/api/thread.c: one thread
-- waits for another one, which other threads change while it blocks.
pub mod Laws
use sock_fuzzer.Common.{
  ℕ, zero, suc, ◌+◌, Bool, true, false, ◌&&◌, Option, none, some, if◌then◌else◌, ◌>>=◌,
}
use sock_fuzzer.Lock.{WaitResult, is_waiting}
use sock_fuzzer.Thread.{Thread, set_suspended, set_not_suspended}

-- One turn of a loop: what XNUAssertWait and ThreadBlock answer, and what becomes of the thread that
-- is waited for in the meantime.
pub record Turn : Type 0 where
  pub asserted : WaitResult
  pub blocked : WaitResult
  pub meanwhile : Thread → Thread

abbrev pub is_awakened : WaitResult → Bool
is_awakened WaitResult.awakened = true
is_awakened _ = false

-- `wake_active = true`, XNUAssertWait, and a block where that is to wait.
unfoldable pub await_wake : Turn → Thread → WaitResult × Thread
await_wake turn t = (
  if is_waiting turn.asserted then turn.blocked else turn.asserted,
  turn.meanwhile (record t { wake_active = true }),
)

-- The hypercall returns before it does anything.
abbrev pub thread_unstop : Thread → Thread
thread_unstop t = t

-- The first component is whether thread_wakeup is called for the event `&wake_active`.
unfoldable pub thread_signal_wake : Thread → Bool × Thread
thread_signal_wake t =
    if t.wake_active then (true, record t { wake_active = false }) else (false, t)

-- The loops run for at most `turns` turns, of which the next is number `i`, and give none if they have
-- not ended by then. A result is whether the loop ran to its end, and the thread.
module _ (world : ℕ → Turn) where
  unfoldable pub until_not_suspended : (turns i : ℕ) → Thread → Option (Bool × Thread)
  until_not_suspended zero i t = if t.suspended then none else some (true, t)
  until_not_suspended (suc n) i t =
      let (wresult, t') = await_wake (world i) t in
      let rest = until_not_suspended n (i + 1) t' in
      if t.suspended
      then (if is_awakened wresult then rest else some (false, t'))
      else some (true, t)

  unfoldable pub until_stopped :
      (until_not_runnable : Bool) → (turns i : ℕ) → Thread → Option (Bool × Thread)
  until_stopped until_not_runnable zero i t =
      if until_not_runnable && t.runnable then none else some (true, t)
  until_stopped until_not_runnable (suc n) i t =
      let (wresult, t') = await_wake (world i) t in
      let rest = until_stopped until_not_runnable n (i + 1) t' in
      if until_not_runnable && t.runnable
      then (if is_awakened wresult then rest else some (false, thread_unstop t'))
      else some (true, t)

  -- The second loop goes on with the turns from `turns` on.
  unfoldable pub thread_stop :
      (until_not_runnable : Bool) → (turns : ℕ) → Thread → Option (Bool × Thread)
  thread_stop until_not_runnable turns t = elim (until_not_suspended turns 0 t) [
    | none ↦ none
    | some r ↦
        (if r.0
          then until_stopped until_not_runnable turns turns (set_suspended r.1)
          else some (false, r.1))
  ]

  unfoldable pub thread_wait : (until_not_runnable : Bool) → (turns i : ℕ) → Thread → Option Thread
  thread_wait until_not_runnable zero i t =
      if until_not_runnable && t.runnable then none else some t
  thread_wait until_not_runnable (suc n) i t =
      let rest = thread_wait until_not_runnable n (i + 1) (await_wake (world i) t).1 in
      if until_not_runnable && t.runnable then rest else some t
