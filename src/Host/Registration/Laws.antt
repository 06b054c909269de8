-- ===== src/Host/Registration/Laws.antt =====
-- On CreateThread, SetCurrentThreadT and ThreadDestroyed of fuzz/host/host.cc and their two maps.
use sock_fuzzer.Common.{
  ℕ, true, false, none, some, ok, stop, aborted, is_some, if◌then◌else◌, ◌==◌, ◌≡◌, refl, ap, ◌≢◌,
  ◌⊎◌, ◌↔◌, arith,
}
use sock_fuzzer.Lock.{WaitResult}
use sock_fuzzer.Host.{
  Host, handle_to_thread_t, thread_t_to_handle, get_wait_result, get_current_thread_t,
}
use sock_fuzzer.Host.Registration.{
  enter, create_thread, set_current_thread_t, forget, thread_destroyed,
}

module _ {S Name : Type 0} where
  -- Each map undoes the other.
  pub record IsRegistered (host : Host S Name) : Type 0 where
    pub handle_of :
        (thread handle : ℕ)
        → host.internal_to_handle thread ≡ some handle
        → host.handle_to_internal handle ≡ some thread
    pub thread_of :
        (thread handle : ℕ)
        → host.handle_to_internal handle ≡ some thread
        → host.internal_to_handle thread ≡ some handle

  pub IsRegistered-same :
      (host host' : Host S Name)
      → host'.internal_to_handle ≡ host.internal_to_handle
      → host'.handle_to_internal ≡ host.handle_to_internal
      → IsRegistered host
      → IsRegistered host'
  IsRegistered-same host host' i j v = record {
    handle_of = λ t h e. cc (v.handle_of t h (cc));
    thread_of = λ t h e. cc (v.thread_of t h (cc));
  }

  -- Two threads with handles have different ones.
  pub IsRegistered-injective :
      (host : Host S Name) (thread other handle : ℕ)
      → IsRegistered host
      → host.internal_to_handle thread ≡ some handle
      → host.internal_to_handle other ≡ some handle
      → thread ≡ other
  IsRegistered-injective host thread other handle v e e' =
      ground (arith, v.handle_of thread handle e, v.handle_of other handle e')

  enter-IsRegistered :
      (thread handle : ℕ) (host : Host S Name)
      → IsRegistered host
      → host.internal_to_handle thread ≡ none
      → host.handle_to_internal handle ≡ none
      → IsRegistered (enter thread handle host)
  enter-IsRegistered thread handle host v free fresh = record {
    handle_of = λ t h e. ground (arith, v.handle_of t h, v.thread_of t h, v.thread_of t handle);
    thread_of = λ t h e. ground (arith, v.handle_of t h, v.thread_of t h, v.handle_of thread h);
  }

  -- In a debug build, creating a thread that is not null either aborts, or keeps the two maps inverse
  -- to each other, enters the thread under the handle that the scheduler answered, and leaves the
  -- handle of every other thread as it was.
  pub create_thread-IsRegistered :
      (created : ℕ × S) (thread other : ℕ) (host : Host S Name) (result : ℕ × Host S Name)
      → IsRegistered host
      → thread ≢ 0
      → create_thread true created thread host ≡ ok result
      → IsRegistered result.1
        × (result.0 ≡ created.0)
        × (thread_t_to_handle result.1 thread ≡ created.0)
        × (handle_to_thread_t result.1 created.0 ≡ thread)
        × (result.1.internal_to_handle other
            ≡ (if other == thread then some created.0 else host.internal_to_handle other))
  unfolding create_thread
  create_thread-IsRegistered created thread other host result v nonnull e =
      let free : host.internal_to_handle thread ≡ none = ground arith in
      let fresh : host.handle_to_internal created.0 ≡ none = ground arith in
      let moved : Host S Name = record host { scheduler = created.1 } in
      let same : result ≡ (created.0, enter thread created.0 moved) = ground arith in
      let kept : IsRegistered moved = record { handle_of = v.handle_of; thread_of = v.thread_of } in
      rw same (
        enter-IsRegistered thread created.0 moved kept free fresh,
        refl,
        ground arith,
        ground arith,
        ground arith,
      )

  -- In a debug build, creating a thread aborts exactly if the thread is not null and has a handle
  -- already, or the new handle has a thread already.
  pub create_thread_aborts :
      (created : ℕ × S) (thread : ℕ) (host : Host S Name)
      → (create_thread true created thread host ≡ stop aborted) ↔ (
          ((thread ≢ 0) × (is_some (host.internal_to_handle thread) ≡ true))
          ⊎ (is_some (host.handle_to_internal created.0) ≡ true))
  unfolding create_thread
  create_thread_aborts created thread host = (λ e. ground arith, λ h. ground arith)

  -- Naming the current thread keeps the maps inverse to each other where neither the current handle
  -- nor the thread has a partner, as at boot. Where the handle has a thread already, that thread
  -- keeps it too: two threads then share a handle.
  pub set_current_thread_t-IsRegistered :
      (thread old : ℕ) (host : Host S Name)
      → IsRegistered host
      → ((host.internal_to_handle thread ≡ none)
          → (host.handle_to_internal host.current_thread ≡ none)
          → IsRegistered (set_current_thread_t thread host)
            × (get_current_thread_t (set_current_thread_t thread host) ≡ thread))
        × (old ≢ thread
            → host.handle_to_internal host.current_thread ≡ some old
            → thread_t_to_handle (set_current_thread_t thread host) old
              ≡ thread_t_to_handle (set_current_thread_t thread host) thread)
  unfolding set_current_thread_t
  set_current_thread_t-IsRegistered thread old host v = (
    λ free fresh. (enter-IsRegistered thread host.current_thread host v free fresh, ground arith),
    λ differ entered. ground (arith, v.thread_of old host.current_thread entered),
  )

  -- What the host answers for a thread that it knows nothing of.
  pub record IsForgotten (thread : ℕ) (host : Host S Name) : Type 0 where
    pub handle : thread_t_to_handle host thread ≡ 0
    pub continuation : host.continuations thread ≡ none
    pub suspended : host.suspended thread ≡ false
    pub terminating : host.terminating thread ≡ false
    pub waiting : host.waiting thread ≡ false
    pub wait_report : host.wait_report thread ≡ false
    pub uninterruptible : host.uninterruptible thread ≡ false
    pub enqueued : host.enqueued thread ≡ false
    pub wait_result : get_wait_result host thread ≡ WaitResult.waiting

  pub thread_destroyed-forget :
      (handle thread : ℕ) (host : Host S Name)
      → host.handle_to_internal handle ≡ some thread
      → thread_destroyed handle host ≡ forget handle thread host
  unfolding thread_destroyed
  thread_destroyed-forget handle thread host e =
      let known : handle_to_thread_t host handle ≡ thread = ground arith in
      ap (λ t. forget handle t host) known

  -- What the host answers for a thread is what it answered before.
  pub record IsKept (thread : ℕ) (before after : Host S Name) : Type 0 where
    pub handle : thread_t_to_handle after thread ≡ thread_t_to_handle before thread
    pub continuation : after.continuations thread ≡ before.continuations thread
    pub suspended : after.suspended thread ≡ before.suspended thread
    pub terminating : after.terminating thread ≡ before.terminating thread
    pub waiting : after.waiting thread ≡ before.waiting thread
    pub wait_report : after.wait_report thread ≡ before.wait_report thread
    pub uninterruptible : after.uninterruptible thread ≡ before.uninterruptible thread
    pub enqueued : after.enqueued thread ≡ before.enqueued thread
    pub suspended_runnable : after.suspended_runnable thread ≡ before.suspended_runnable thread
    pub wait_result : get_wait_result after thread ≡ get_wait_result before thread

  -- What the host keeps of a handle is what it kept before.
  pub record IsSpared (handle : ℕ) (before after : Host S Name) : Type 0 where
    pub thread : handle_to_thread_t after handle ≡ handle_to_thread_t before handle
    pub entry_context : after.entry_contexts handle ≡ before.entry_contexts handle
    pub stack_pointer : after.stack_pointers handle ≡ before.stack_pointers handle
    pub copyin_blocked : after.copyin_blocked handle ≡ before.copyin_blocked handle

  -- Destroying a handle that has a thread keeps the maps inverse to each other and forgets the thread,
  -- and the handle's thread, entry context, stack pointer and depth of blocked copying. Every other thread keeps
  -- its handle, its continuation, all its flags and its result, and every other handle keeps its thread, its entry context, its stack
  -- pointer and its depth.
  pub thread_destroyed-IsRegistered :
      (handle thread other other_handle : ℕ) (host : Host S Name)
      → IsRegistered host
      → host.handle_to_internal handle ≡ some thread
      → other ≢ thread
      → other_handle ≢ handle
      → let gone = thread_destroyed handle host in
        IsRegistered gone
        × IsForgotten thread gone
        × (handle_to_thread_t gone handle ≡ 0)
        × (gone.entry_contexts handle ≡ false)
        × (gone.stack_pointers handle ≡ none)
        × (gone.copyin_blocked handle ≡ 0)
        × IsKept other host gone
        × IsSpared other_handle host gone
  thread_destroyed-IsRegistered handle thread other other_handle host v e apart apart_handle =
      rw (thread_destroyed-forget handle thread host e) (
        record {
          handle_of = λ t h k.
              ground (arith, v.handle_of t h, v.thread_of t h, v.thread_of thread handle e);
          thread_of = λ t h k.
              ground (arith, v.handle_of t h, v.thread_of t h, v.thread_of thread handle e);
        },
        record {
          handle = ground arith;
          continuation = ground arith;
          suspended = ground arith;
          terminating = ground arith;
          waiting = ground arith;
          wait_report = ground arith;
          uninterruptible = ground arith;
          enqueued = ground arith;
          wait_result = ground arith;
        },
        ground arith,
        ground arith,
        ground arith,
        ground arith,
        record {
          handle = ground arith;
          continuation = ground arith;
          suspended = ground arith;
          terminating = ground arith;
          waiting = ground arith;
          wait_report = ground arith;
          uninterruptible = ground arith;
          enqueued = ground arith;
          suspended_runnable = ground arith;
          wait_result = ground arith;
        },
        record {
          thread = ground arith;
          entry_context = ground arith;
          stack_pointer = ground arith;
          copyin_blocked = ground arith;
        },
      )
