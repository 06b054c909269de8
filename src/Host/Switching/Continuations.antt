-- ===== src/Host/Switching/Continuations.antt =====
-- On CallContinuationIfPresent of fuzz/host/host.cc and the stack of a continuation.
use sock_fuzzer.Common.{ℕ, true, none, some, ◌≡◌, ◌≢◌, ◌≤◌, ◌%◌, ◌+◌, ◌<◌, refl, arith}
use sock_fuzzer.Host.{Host, get_current_thread_t, get_wait_result}
use sock_fuzzer.Host.Switching.{Continued, set_continuation, get_stack_pointer, call_continuation}

module _ {S Name : Type 0} where
  -- Once a continuation that is not null is set for the current thread, resuming the thread calls it
  -- with its parameter and the recorded result, with interrupts enabled, and forgets it: resuming
  -- again calls none. Every later continuation of the handle gets the same stack pointer, wherever it
  -- is asked for.
  pub call_continuation-set_continuation :
      (host : Host S Name) (continuation parameter here later : ℕ)
      → continuation ≢ 0
      → let self = get_current_thread_t host in
        let first = call_continuation here (set_continuation self continuation parameter host) in
        (c : Continued) × (first.0 ≡ some c)
        × (c.continuation ≡ continuation)
        × (c.parameter ≡ parameter)
        × (c.wait_result ≡ get_wait_result host self)
        × (first.1.interrupts_enabled ≡ true)
        × ((call_continuation later first.1).0 ≡ none)
        × ((get_stack_pointer later first.1).0 ≡ c.stack_pointer)
  unfolding set_continuation call_continuation get_stack_pointer
  call_continuation-set_continuation host continuation parameter here later nonnull = (
    record {
      continuation = continuation;
      parameter = parameter;
      wait_result = get_wait_result host (get_current_thread_t host);
      stack_pointer = (get_stack_pointer here host).0;
    },
    ground arith,
    refl,
    refl,
    refl,
    ground arith,
    ground arith,
    ground arith,
  )

  -- The stack pointer that a continuation gets is the one saved for its handle, or else the present one
  -- with its low byte cleared. Setting a null continuation leaves none to be called.
  pub get_stack_pointer-aligned :
      (host : Host S Name) (here : ℕ)
      → host.stack_pointers host.current_thread ≡ none
      → ((get_stack_pointer here host).0 % 256 ≡ 0)
        × ((get_stack_pointer here host).0 ≤ here)
        × (here < (get_stack_pointer here host).0 + 256)
  unfolding get_stack_pointer
  get_stack_pointer-aligned host here e = (ground arith, ground arith, ground arith)

  set_continuation-null :
      (host : Host S Name) (parameter here : ℕ)
      → (call_continuation here (set_continuation (get_current_thread_t host) 0 parameter host)).0
        ≡ none
  unfolding set_continuation call_continuation
  set_continuation-null host parameter here = ground arith
