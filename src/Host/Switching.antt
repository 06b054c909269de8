-- ===== src/Host/Switching.antt =====
-- Choosing the next thread, leaving and resuming one, and continuations: ThreadSelect, SwitchFrom,
-- SwitchTo, ThreadResumed, ThreadBlock and Yield of fuzz/host/host.cc.
pub mod Laws
pub mod Continuations
use sock_fuzzer.Common.{
  ℕ, Bool, true, false, not, ◌&&◌, Option, none, some, List, [], ◌∷◌, ◌++◌, Outcome, ok, stop,
  aborted, ◌⊎◌, inl, inr, if◌then◌else◌, ◌>>=◌, ◌*◌, ◌/◌, ◌==◌, is_some, update,
}
use sock_fuzzer.Lock.{WaitResult}
use sock_fuzzer.Host.{Host, Scheduler, get_current_thread_t, get_wait_result}
use sock_fuzzer.Host.Flags.{clear_wait, set_enqueued, should_block, set_runnable, set_not_runnable}

-- What the host has XNU do as it leaves a thread.
pub data XnuCall : Type 0 where
  thread_enqueue_termination sched_call_notify_blocked thread_signal_wake : (thread : ℕ) → XnuCall

-- The call of a continuation, which does not return: its parameter, the result that it is given and
-- the stack pointer that it runs on.
pub record Continued : Type 0 where
  pub continuation : ℕ
  pub parameter : ℕ
  pub wait_result : WaitResult
  pub stack_pointer : ℕ

module _ {S Name : Type 0} where
  unfoldable pub set_continuation : (thread continuation parameter : ℕ) → Host S Name → Host S Name
  set_continuation thread continuation parameter host = record host {
    continuations =
        update host.continuations thread
          (if continuation == 0 then none else some (continuation, parameter));
  }

  -- `here` is the stack pointer, of which the low byte is cleared.
  unfoldable pub get_stack_pointer : (here : ℕ) → Host S Name → ℕ × Host S Name
  get_stack_pointer here host = elim (host.stack_pointers host.current_thread) [
    | some saved ↦ (saved, host)
    | none ↦
        let sp : ℕ = here / 256 * 256 in
        (
          sp,
          record host { stack_pointers = update host.stack_pointers host.current_thread (some sp) },
        )
  ]

  unfoldable pub call_continuation : (here : ℕ) → Host S Name → Option Continued × Host S Name
  unfolding get_stack_pointer
  call_continuation here host =
      let thread : ℕ = get_current_thread_t host in
      let open_host : Host S Name = record host { interrupts_enabled = true } in
      elim (host.continuations thread) [
        | none ↦ (none, open_host)
        | some c ↦
            let (sp, last) =
              get_stack_pointer here
                (record open_host { continuations = update host.continuations thread none }) in
            (
              some (record {
                continuation = c.0;
                parameter = c.1;
                wait_result = get_wait_result last thread;
                stack_pointer = sp;
              }),
              last,
            )
      ]

  unfoldable pub thread_resumed : (here : ℕ) → Host S Name → Option Continued × Host S Name
  unfolding call_continuation
  thread_resumed here host =
      call_continuation here (clear_wait (get_current_thread_t host) WaitResult.awakened host)

  -- The end of ThreadBlock, once SwitchTo is back or has called a continuation.
  abbrev pub end_block :
      (debug : Bool)
      → (self : ℕ) → Option Continued × Host S Name
      → Outcome ((Continued ⊎ WaitResult) × Host S Name)
  end_block debug self (some c, back) = ok (inl c, back)
  end_block debug self (none, back) =
      if debug && back.waiting self
      then stop aborted
      else ok (inr (get_wait_result back self), back)

  module _ (sched : Scheduler S) where
    unfoldable pub thread_set_blocked : (thread : ℕ) → Host S Name → List XnuCall × Host S Name
    thread_set_blocked thread host =
        let ends = not (host.enqueued thread) && host.terminating thread in
        let noted = if ends then set_enqueued thread true host else host in
        (
          (if ends then thread_enqueue_termination thread ∷ [] else [])
              ++ (if host.wait_report thread then sched_call_notify_blocked thread ∷ [] else []),
          set_not_runnable sched thread noted,
        )

    unfoldable pub switch_from : (thread : ℕ) → Host S Name → List XnuCall × Host S Name
    unfolding thread_set_blocked
    switch_from thread host =
        let (calls, left) =
          if host.waiting thread
          then thread_set_blocked thread host
          else ([], set_runnable sched thread host) in
        (calls ++ (thread_signal_wake thread ∷ []), left)

    -- What the rest of the program adds to a block. `choose` is the scheduler's ChooseThread and
    -- `main_handle` its main thread's handle, `main_thread` the kernel's, `resumes` whether the
    -- scheduler's SwitchTo finds a handle alive, `world` what happens until this thread runs again.
    module _ (debug : Bool) (choose : Bool → S → ℕ × S) (main_handle main_thread : ℕ) where
      abbrev pub still_running : Host S Name → Bool
      still_running host =
          sched.is_runnable host.scheduler host.current_thread
          && not (should_block host (get_current_thread_t host))
          && not (host.suspended (get_current_thread_t host))

      unfoldable pub thread_select : Host S Name → Outcome (ℕ × Host S Name)
      thread_select host =
          let (handle, s) = choose (still_running host) host.scheduler in
          let chosen : Host S Name = record host { scheduler = s } in
          if not (handle == 0)
          then ok (handle, chosen)
          else if debug && host.waiting main_thread
          then stop aborted
          else ok (main_handle, chosen)

      module _ (resumes : ℕ → Bool) (world : Host S Name → Host S Name) (here : ℕ) where
        -- The executor gives g_current_thread back with the stack.
        unfoldable pub switch_to : (handle : ℕ) → Host S Name → Option Continued × Host S Name
        unfolding switch_from call_continuation thread_resumed
        switch_to handle host =
            let left = (switch_from (get_current_thread_t host) host).1 in
            if handle == host.current_thread
            then call_continuation here host
            else if resumes handle
            then thread_resumed here (record (world left) { current_thread = host.current_thread })
            else (none, left)

        -- Either a continuation is called, or the thread goes on with the result of its wait.
        unfoldable pub thread_block : Host S Name → Outcome ((Continued ⊎ WaitResult) × Host S Name)
        unfolding thread_select switch_to
        thread_block host =
            let self : ℕ = get_current_thread_t host in
            thread_select host >>= λ selected.
            end_block debug self (switch_to selected.0 selected.1)

        -- The first component is the continuation that is called, if one is.
        unfoldable pub yield :
            (ready_for_preemption : Bool) → Host S Name → Outcome (Option Continued × Host S Name)
        unfolding thread_block
        yield ready_for_preemption host =
            if not ready_for_preemption
            then ok (none, host)
            else if not host.interrupts_enabled
            then ok (none, host)
            else if host.waiting (get_current_thread_t host)
            then ok (none, host)
            else thread_block host >>= λ r. ok (elim r.0 [ inl c ↦ some c | inr _ ↦ none ], r.1)
