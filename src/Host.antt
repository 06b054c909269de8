-- ===== src/Host.antt =====
-- The host of fuzz/host/host.cc: what it keeps for each thread and each handle, and its operations.
-- The scheduler of third_party/concurrence is an interface.
pub mod Registration
pub mod Flags
pub mod Switching
pub mod Naming
pub mod Copying
mod Tests
use sock_fuzzer.Common.{ℕ, Bool, true, false, Option, none, some, if◌then◌else◌, ◌≡◌, ◌==◌}
use sock_fuzzer.Lock.{WaitResult}

-- The scheduler, over its own state S: which handles it may run, and how that changes. It accepts the
-- handles of live threads other than the main thread, which it never lists as runnable.
pub record Scheduler (S : Type 0) : Type 0 where
  pub accepts : ℕ → Bool
  pub is_runnable : S → ℕ → Bool
  pub make_runnable : ℕ → S → S
  pub make_not_runnable : ℕ → S → S
  pub make_runnable_lem :
      (handle other : ℕ) (s : S)
      → accepts handle ≡ true
      → is_runnable (make_runnable handle s) other
        ≡ (if other == handle then true else is_runnable s other)
  pub make_not_runnable_lem :
      (handle other : ℕ) (s : S)
      → accepts handle ≡ true
      → is_runnable (make_not_runnable handle s) other
        ≡ (if other == handle then false else is_runnable s other)

module _ {S : Type 0} (sched : Scheduler S) where
  -- There is a handle, and the scheduler accepts it.
  abbrev pub is_accepted : Option ℕ → Bool
  is_accepted none = false
  is_accepted (some handle) = sched.accepts handle

-- A thread_t and a ThreadHandle are numbers, 0 for the null pointer and for no handle. A hash map is
-- a function to Option, a hash set a function to Bool, and copyin_blocked, whose missing entries are
-- created as 0, a function to the counter. A name is its printed form.
pub record Host (S Name : Type 0) : Type 0 where
  pub scheduler : S
  pub current_thread : ℕ
  pub interrupts_enabled : Bool
  pub internal_to_handle : ℕ → Option ℕ
  pub handle_to_internal : ℕ → Option ℕ
  pub entry_contexts : ℕ → Bool
  pub stack_pointers : ℕ → Option ℕ
  pub continuations : ℕ → Option (ℕ × ℕ)
  pub copyin_blocked : ℕ → ℕ
  pub readable_ids : ℕ → Option ℕ
  pub names : ℕ → Option Name
  pub next_thread_id : ℕ
  pub suspended : ℕ → Bool
  pub suspended_runnable : ℕ → Bool
  pub terminating : ℕ → Bool
  pub waiting : ℕ → Bool
  pub wait_report : ℕ → Bool
  pub uninterruptible : ℕ → Bool
  pub enqueued : ℕ → Bool
  pub wait_results : ℕ → Option WaitResult

module _ {S Name : Type 0} where
  abbrev pub thread_t_to_handle : Host S Name → ℕ → ℕ
  thread_t_to_handle host thread = elim (host.internal_to_handle thread) [
    | none ↦ 0
    | some handle ↦ handle
  ]

  abbrev pub handle_to_thread_t : Host S Name → ℕ → ℕ
  handle_to_thread_t host handle = elim (host.handle_to_internal handle) [
    | none ↦ 0
    | some thread ↦ thread
  ]

  abbrev pub get_current_thread_t : Host S Name → ℕ
  get_current_thread_t host = handle_to_thread_t host host.current_thread

  -- A thread without an entry counts as waiting.
  abbrev pub get_wait_result : Host S Name → ℕ → WaitResult
  get_wait_result host thread = elim (host.wait_results thread) [
    | none ↦ WaitResult.waiting
    | some result ↦ result
  ]
