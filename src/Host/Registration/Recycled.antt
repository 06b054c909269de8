-- ===== src/Host/Registration/Recycled.antt =====
-- A thread that CreateThread of fuzz/host/host.cc is given at the address of a destroyed one.
use sock_fuzzer.Common.{ℕ, Bool, true, false, ◌||◌, some, ok, ◌≡◌, sym, ap, ◌∙◌, arith}
use sock_fuzzer.Host.{Host, Scheduler}
use sock_fuzzer.Host.Flags.{is_runnable, set_not_suspended}
use sock_fuzzer.Host.Registration.{create_thread, forget, thread_destroyed}
use sock_fuzzer.Host.Registration.Laws.{thread_destroyed-forget}

module _ {S Name : Type 0} (sched : Scheduler S) where
  -- If a thread is destroyed and another one is created at its address, under a handle that the
  -- scheduler accepts, then the new thread is neither suspended nor waiting nor terminating. Lifting
  -- its suspension, of which there is none, makes it runnable if the destroyed thread was suspended
  -- while runnable, and otherwise leaves it runnable or not as the scheduler had it.
  pub create_thread-thread_destroyed :
      (debug : Bool) (handle thread handle' : ℕ) (s : S) (host born : Host S Name)
      → host.handle_to_internal handle ≡ some thread
      → sched.accepts handle' ≡ true
      → create_thread debug (handle', s) thread (thread_destroyed handle host) ≡ ok (handle', born)
      → (born.suspended thread ≡ false)
        × (born.waiting thread ≡ false)
        × (born.terminating thread ≡ false)
        × (is_runnable sched (set_not_suspended sched thread born) thread
            ≡ (host.suspended_runnable thread || sched.is_runnable s handle'))
  unfolding create_thread set_not_suspended
  create_thread-thread_destroyed debug handle thread handle' s host born known live made =
      let made' : create_thread debug (handle', s) thread (forget handle thread host)
          ≡ ok (handle', born) =
        ap (create_thread debug (handle', s) thread)
          (sym (thread_destroyed-forget handle thread host known))
        ∙ made in
      let law = sched.make_runnable_lem handle' handle' s live in
      (ground arith, ground arith, ground arith, ground (arith, law))
