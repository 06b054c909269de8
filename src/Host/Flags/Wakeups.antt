-- ===== src/Host/Flags/Wakeups.antt =====
-- ThreadGo of fuzz/host/hypercall/hypercall.cc among other hypercalls.
use sock_fuzzer.Common.{
  ℕ, Bool, true, false, List, [], ◌∷◌, ◌++◌, All, is_some, ◌≡◌, refl, inl, inr, arith, ◌==◌,
  Bool-cases, ==_iff, update, update_self, update_ne, subst, sym, All-append_right, ◌≢◌, ◌⊎◌,
}
use sock_fuzzer.Lock.{WaitResult}
use sock_fuzzer.Thread
use sock_fuzzer.Thread.{Thread}
use sock_fuzzer.Thread.Wait
use sock_fuzzer.Host.{Scheduler, is_accepted}
use sock_fuzzer.Host.Flags.Calls.{
  Hypercall, thread_set_waiting, thread_set_uninterruptible_wait, thread_set_suspended,
  thread_set_not_runnable, thread_set_wait_result, thread_clear_wait, thread_go, Machine, run, view,
  on_thread, replay,
}
use sock_fuzzer.Host.Flags.Refinement.{Accepted, run-refines}
use sock_fuzzer.Host.Registration.Laws.{IsRegistered}

-- The calls that put a thread back to waiting or off the scheduler, or give it another result.
abbrev pub disturbs : Hypercall → Bool
disturbs thread_set_waiting = true
disturbs thread_set_uninterruptible_wait = true
disturbs thread_set_suspended = true
disturbs thread_set_not_runnable = true
disturbs (thread_set_wait_result _) = true
disturbs (thread_clear_wait _) = true
disturbs (thread_go _ _) = true
disturbs _ = false

-- Each of the calls is on another thread, or does not disturb.
abbrev pub Undisturbed : (thread : ℕ) → List (Hypercall × ℕ) → Type 0
Undisturbed thread calls = All (λ c. (c.1 ≢ thread) ⊎ (disturbs c.0 ≡ false)) calls

-- A thread that has been woken with a result.
pub record IsWoken (result : WaitResult) (t : Thread) : Type 0 where
  pub runnable : t.runnable ≡ true
  pub awake : t.waiting ≡ false
  pub wait_result : t.wait_result ≡ result

module _ (decrement : ℕ → ℕ) where
  on_thread-IsWoken :
      (hypercall : Hypercall) (t : Thread) (result : WaitResult)
      → disturbs hypercall ≡ false
      → IsWoken result t
      → IsWoken result (on_thread decrement hypercall t)
  unfolding on_thread Thread.set_not_suspended
  on_thread-IsWoken hypercall t result quiet w = ground (arith, w.runnable, w.awake, w.wait_result)

  thread_go-IsWoken :
      (cancelled : Bool) (result : WaitResult) (t : Thread)
      → IsWoken result (on_thread decrement (thread_go cancelled result) t)
  unfolding on_thread Wait.thread_wakeup
  thread_go-IsWoken cancelled result t = ground arith

  replay-IsWoken :
      (calls : List (Hypercall × ℕ)) (threads : ℕ → Thread) (thread : ℕ) (result : WaitResult)
      → Undisturbed thread calls
      → IsWoken result (threads thread)
      → IsWoken result (replay decrement calls threads thread)
  replay-IsWoken [] threads thread result quiet w = w
  replay-IsWoken ((hypercall, other) ∷ calls) threads thread result quiet w =
      let after = on_thread decrement hypercall (threads other) in
      let w' : IsWoken result (update threads other after thread) =
        elim (Bool-cases (thread == other)) [
          | inl same ↦
              let e : thread ≡ other = (==_iff thread other).0 same in
              let calm : disturbs hypercall ≡ false = ground arith in
              subst (λ t. IsWoken result t) (sym (simp e (update_self threads other after)))
                (on_thread-IsWoken hypercall (threads other) result calm (simp (← e) w))
          | inr apart ↦
              let differs : thread ≢ other = λ e. ground arith in
              rw (update_ne threads other thread after differs) w
        ] in
      replay-IsWoken calls (update threads other after) thread result quiet.1 w'

  replay-append :
      (first rest : List (Hypercall × ℕ)) (threads : ℕ → Thread)
      → replay decrement (first ++ rest) threads
        ≡ replay decrement rest (replay decrement first threads)
  replay-append [] rest threads = refl
  replay-append ((hypercall, thread) ∷ first) rest threads =
      replay-append first rest
        (update threads thread (on_thread decrement hypercall (threads thread)))

  -- A wake-up keeps its effect under the calls of the type Hypercall, which set a thread's flags or wake it; none of
  -- them blocks, yields, or creates or selects a thread. After any sequence of these calls on accepted threads
  -- in which a thread is woken with a result, and no later call on that thread disturbs it, the thread is
  -- runnable, does not wait, and has that result, whatever calls came before and whatever was done to
  -- other threads since. The two maps of the host are inverse to each other at the start.
  -- When the woken thread next goes on from a block, the host overwrites the result; that is no call of the type.
  pub run-IsWoken :
      {S Name : Type 0} (sched : Scheduler S) (before rest : List (Hypercall × ℕ)) (thread : ℕ)
      (cancelled : Bool) (result : WaitResult) (m : Machine S Name)
      → IsRegistered m.host
      → Accepted sched m.host.internal_to_handle
          (before ++ (thread_go cancelled result, thread) ∷ rest)
      → Undisturbed thread rest
      → IsWoken result (
          view sched
            (run sched decrement (before ++ (thread_go cancelled result, thread) ∷ rest) m)
            thread)
  run-IsWoken sched before rest thread cancelled result m v known quiet =
      let go : Hypercall = thread_go cancelled result in
      let here =
        All-append_right (λ c. is_accepted sched (m.host.internal_to_handle c.1) ≡ true) before
          ((go, thread) ∷ rest) known in
      let woken = replay decrement before (view sched m) in
      let has : is_some (m.host.internal_to_handle thread) ≡ true = ground (arith, here.0) in
      let at_end =
        (run-refines sched decrement (before ++ (go, thread) ∷ rest) m thread v known has).1 in
      rw (at_end, replay-append before ((go, thread) ∷ rest) (view sched m))
        (replay-IsWoken rest (update woken thread (on_thread decrement go (woken thread))) thread
          result quiet
          (rw (update_self woken thread (on_thread decrement go (woken thread)))
            (thread_go-IsWoken cancelled result (woken thread))))
