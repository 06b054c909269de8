-- ===== src/Host/Flags/Refinement.antt =====
-- The sets of fuzz/host/host.cc, and a table of threads that stand alone, under the same hypercalls.
use sock_fuzzer.Common.{
  ℕ, true, false, List, [], ◌∷◌, All, Option, some, ◌≡◌, refl, sym, ap, ◌≢◌, inl, inr, arith, ◌==◌,
  update, update_self, update_ne, ==_iff, ◌∙◌, is_some, Bool-cases,
}
use sock_fuzzer.Thread
use sock_fuzzer.Thread.{Thread}
use sock_fuzzer.Thread.Wait
use sock_fuzzer.Host.{Host, Scheduler, is_accepted, thread_t_to_handle}
use sock_fuzzer.Host.Flags.{set_suspended, set_not_suspended, thread_wakeup}
use sock_fuzzer.Host.Flags.Calls.{
  Hypercall, thread_set_waiting, thread_set_not_waiting, thread_set_wait_report,
  thread_set_not_wait_report, thread_set_uninterruptible, thread_set_not_uninterruptible,
  thread_set_uninterruptible_wait, thread_clear_uninterruptible_wait, thread_set_terminating,
  thread_set_queued_for_termination, thread_set_wait_result, thread_clear_wait, thread_go,
  thread_set_suspended, thread_set_not_suspended, thread_set_runnable, thread_set_not_runnable,
  Machine, on_host, call, run, view, on_thread, replay,
}
use sock_fuzzer.Host.Registration.Laws.{IsRegistered, IsRegistered-same, IsRegistered-injective}

-- The scheduler accepts the threads that a sequence of calls is about.
abbrev pub Accepted :
    {S : Type 0} → Scheduler S → (handles : ℕ → Option ℕ) → List (Hypercall × ℕ) → Type 0
Accepted sched handles calls = All (λ c. is_accepted sched (handles c.1) ≡ true) calls

module _ {S Name : Type 0} (sched : Scheduler S) (decrement : ℕ → ℕ) where
  on :
      (thread : ℕ) (host : Host S Name) (s : S)
      → is_accepted sched (host.internal_to_handle thread) ≡ true
      → sched.is_runnable
          (sched.make_runnable (thread_t_to_handle host thread) s)
          (thread_t_to_handle host thread)
        ≡ true
  on thread host s k =
      let handle : ℕ = thread_t_to_handle host thread in
      ground (arith, sched.make_runnable_lem handle handle s)

  off :
      (thread : ℕ) (host : Host S Name) (s : S)
      → is_accepted sched (host.internal_to_handle thread) ≡ true
      → sched.is_runnable
          (sched.make_not_runnable (thread_t_to_handle host thread) s)
          (thread_t_to_handle host thread)
        ≡ false
  off thread host s k =
      let handle : ℕ = thread_t_to_handle host thread in
      ground (arith, sched.make_not_runnable_lem handle handle s)

  view-call :
      (hypercall : Hypercall) (thread : ℕ) (m : Machine S Name)
      → is_accepted sched (m.host.internal_to_handle thread) ≡ true
      → view sched (call sched decrement hypercall thread m) thread
        ≡ on_thread decrement hypercall (view sched m thread)
  unfolding on_host on_thread set_suspended set_not_suspended thread_wakeup Thread.set_suspended
      Thread.set_not_suspended Wait.thread_wakeup Wait.thread_cancel_wait_timer
  view-call hypercall thread m k =
      let s : S = sched.make_runnable (thread_t_to_handle m.host thread) m.host.scheduler in
      ground (
        arith,
        on thread m.host m.host.scheduler k,
        off thread m.host m.host.scheduler k,
        on thread m.host s k,
      )

  on_other :
      (thread other : ℕ) (host : Host S Name) (s : S)
      → is_accepted sched (host.internal_to_handle thread) ≡ true
      → thread_t_to_handle host other ≢ thread_t_to_handle host thread
      → sched.is_runnable
          (sched.make_runnable (thread_t_to_handle host thread) s)
          (thread_t_to_handle host other)
        ≡ sched.is_runnable s (thread_t_to_handle host other)
  on_other thread other host s k apart =
      let handle : ℕ = thread_t_to_handle host thread in
      let handle' : ℕ = thread_t_to_handle host other in
      ground (arith, sched.make_runnable_lem handle handle' s)

  off_other :
      (thread other : ℕ) (host : Host S Name) (s : S)
      → is_accepted sched (host.internal_to_handle thread) ≡ true
      → thread_t_to_handle host other ≢ thread_t_to_handle host thread
      → sched.is_runnable
          (sched.make_not_runnable (thread_t_to_handle host thread) s)
          (thread_t_to_handle host other)
        ≡ sched.is_runnable s (thread_t_to_handle host other)
  off_other thread other host s k apart =
      let handle : ℕ = thread_t_to_handle host thread in
      let handle' : ℕ = thread_t_to_handle host other in
      ground (arith, sched.make_not_runnable_lem handle handle' s)

  view-call_other :
      (hypercall : Hypercall) (thread other : ℕ) (m : Machine S Name)
      → is_accepted sched (m.host.internal_to_handle thread) ≡ true
      → other ≢ thread
      → thread_t_to_handle m.host other ≢ thread_t_to_handle m.host thread
      → view sched (call sched decrement hypercall thread m) other ≡ view sched m other
  unfolding on_host set_suspended set_not_suspended thread_wakeup
  view-call_other thread_set_waiting thread other m k differs apart = ground arith
  view-call_other thread_set_not_waiting thread other m k differs apart = ground arith
  view-call_other thread_set_wait_report thread other m k differs apart = ground arith
  view-call_other thread_set_not_wait_report thread other m k differs apart = ground arith
  view-call_other thread_set_uninterruptible thread other m k differs apart = ground arith
  view-call_other thread_set_not_uninterruptible thread other m k differs apart = ground arith
  view-call_other thread_set_uninterruptible_wait thread other m k differs apart = ground arith
  view-call_other thread_clear_uninterruptible_wait thread other m k differs apart = ground arith
  view-call_other thread_set_terminating thread other m k differs apart = ground arith
  view-call_other thread_set_queued_for_termination thread other m k differs apart = ground arith
  view-call_other (thread_set_wait_result result) thread other m k differs apart = ground arith
  view-call_other (thread_clear_wait result) thread other m k differs apart = ground arith
  view-call_other thread_set_suspended thread other m k differs apart =
      ground (arith, off_other thread other m.host m.host.scheduler k apart)
  view-call_other thread_set_not_suspended thread other m k differs apart =
      ground (arith, on_other thread other m.host m.host.scheduler k apart)
  view-call_other thread_set_runnable thread other m k differs apart =
      ground (arith, on_other thread other m.host m.host.scheduler k apart)
  view-call_other thread_set_not_runnable thread other m k differs apart =
      ground (arith, off_other thread other m.host m.host.scheduler k apart)
  view-call_other (thread_go cancelled result) thread other m k differs apart =
      let s : S = sched.make_runnable (thread_t_to_handle m.host thread) m.host.scheduler in
      ground (
        arith,
        on_other thread other m.host m.host.scheduler k apart,
        on_other thread other m.host s k apart,
      )

  -- No hypercall on the flags touches the two maps.
  call-maps :
      (hypercall : Hypercall) (thread : ℕ) (m : Machine S Name)
      → ((call sched decrement hypercall thread m).host.internal_to_handle
          ≡ m.host.internal_to_handle)
        × ((call sched decrement hypercall thread m).host.handle_to_internal
            ≡ m.host.handle_to_internal)
  unfolding on_host set_suspended set_not_suspended thread_wakeup
  call-maps hypercall thread m = (ground arith, ground arith)

  apart_handles :
      (thread other : ℕ) (host : Host S Name)
      → IsRegistered host
      → is_some (host.internal_to_handle thread) ≡ true
      → is_some (host.internal_to_handle other) ≡ true
      → other ≢ thread
      → thread_t_to_handle host other ≢ thread_t_to_handle host thread
  apart_handles thread other host v known known' differs e =
      let handle : ℕ = thread_t_to_handle host thread in
      let entered : host.internal_to_handle thread ≡ some handle = ground arith in
      let entered' : host.internal_to_handle other ≡ some handle = ground arith in
      differs (IsRegistered-injective host other thread handle v entered' entered)

  -- One call, seen from any thread that has a handle.
  view-call_at :
      (hypercall : Hypercall) (thread : ℕ) (m : Machine S Name) (threads : ℕ → Thread)
      → IsRegistered m.host
      → is_accepted sched (m.host.internal_to_handle thread) ≡ true
      → ((u : ℕ) → is_some (m.host.internal_to_handle u) ≡ true → view sched m u ≡ threads u)
      → (u : ℕ) → is_some (m.host.internal_to_handle u) ≡ true
      → view sched (call sched decrement hypercall thread m) u
        ≡ update threads thread (on_thread decrement hypercall (threads thread)) u
  view-call_at hypercall thread m threads v known start u known' =
      let after = on_thread decrement hypercall (threads thread) in
      let here : is_some (m.host.internal_to_handle thread) ≡ true = ground arith in
      elim (Bool-cases (u == thread)) [
        | inl same ↦
            let e : u ≡ thread = (==_iff u thread).0 same in
            simp e (
              view-call hypercall thread m known
              ∙ ap (on_thread decrement hypercall) (start thread here)
              ∙ sym (update_self threads thread after))
        | inr other ↦
            let differs : u ≢ thread = λ e. ground arith in
            simp
              (
                update_ne threads thread u after differs,
                view-call_other hypercall thread u m known differs
                    (apart_handles thread u m.host v here known' differs),
              )
              (start u known')
      ]

  run-refines_from :
      (handles : ℕ → Option ℕ) (calls : List (Hypercall × ℕ)) (m : Machine S Name)
      (threads : ℕ → Thread)
      → m.host.internal_to_handle ≡ handles
      → IsRegistered m.host
      → Accepted sched handles calls
      → ((u : ℕ) → is_some (handles u) ≡ true → view sched m u ≡ threads u)
      → IsRegistered (run sched decrement calls m).host
        × ((u : ℕ)
            → is_some (handles u) ≡ true
            → view sched (run sched decrement calls m) u ≡ replay decrement calls threads u)
  run-refines_from handles [] m threads same v known start = (v, start)
  run-refines_from handles ((hypercall, thread) ∷ calls) m threads same v known start =
      let m' = call sched decrement hypercall thread m in
      let (i, j) = call-maps hypercall thread m in
      let step = view-call_at hypercall thread m threads v (cc (known.0)) (λ u k. start u (cc)) in
      run-refines_from handles calls m'
        (update threads thread (on_thread decrement hypercall (threads thread))) (i ∙ same)
        (IsRegistered-same m.host m'.host i j v) known.1 (λ u k. step u (cc))

  -- Any sequence of the hypercalls of the type Hypercall, which set a thread's flags or wake it, on
  -- threads whose handles the scheduler accepts, from a host whose two maps
  -- are inverse to each other, keeps them so. Every thread that has a handle is afterwards as the same calls, one by
  -- one, make it in a table of the threads.
  pub run-refines :
      (calls : List (Hypercall × ℕ)) (m : Machine S Name) (u : ℕ)
      → IsRegistered m.host
      → Accepted sched m.host.internal_to_handle calls
      → is_some (m.host.internal_to_handle u) ≡ true
      → IsRegistered (run sched decrement calls m).host
        × (view sched (run sched decrement calls m) u ≡ replay decrement calls (view sched m) u)
  run-refines calls m u v known has =
      let (v', same) =
        run-refines_from m.host.internal_to_handle calls m (view sched m) refl v known
          (λ u k. refl) in
      (v', same u has)
