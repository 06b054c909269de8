-- ===== src/Host/Tests.antt =====
-- A host with two threads, 100 under the handle 10 and 200 under the handle 20. The first one runs.
use sock_fuzzer.Common.{
  ℕ, Bool, true, false, none, some, List, [], ◌∷◌, ◌++◌, ok, ◌≡◌, refl, inl, inr, ◌-◌, ◌+◌, ◌||◌,
  arith, if◌then◌else◌, ◌==◌, ltb, update,
}
use sock_fuzzer.Lock.{WaitResult}
use sock_fuzzer.Host.{Host, Scheduler, thread_t_to_handle, handle_to_thread_t}
use sock_fuzzer.Host.Registration.{create_thread, thread_destroyed}
use sock_fuzzer.Host.Registration.Laws.{
  IsRegistered, IsForgotten, IsKept, IsSpared, create_thread-IsRegistered,
  thread_destroyed-IsRegistered,
}
use sock_fuzzer.Host.Registration.Recycled.{create_thread-thread_destroyed}
use sock_fuzzer.Host.Flags.{is_runnable, thread_wakeup, set_suspended, set_not_suspended}
use sock_fuzzer.Host.Flags.Calls.{
  Hypercall, Machine, thread_set_waiting, thread_set_suspended, thread_set_not_suspended,
  thread_set_terminating, thread_go, run, view, replay,
}
use sock_fuzzer.Host.Flags.Refinement.{Accepted, run-refines}
use sock_fuzzer.Host.Flags.Wakeups.{IsWoken, run-IsWoken}
use sock_fuzzer.Host.Switching.{switch_from, thread_block, yield}
use sock_fuzzer.Host.Switching.Laws.{thread_block-awakened}
use sock_fuzzer.Host.Naming.{set_id, set_thread_name, describe_thread_handle}
use sock_fuzzer.Host.Naming.Laws.{IsNumbered}
use sock_fuzzer.Host.Copying.{unblock_copyin, is_copyio_blocked}

-- A scheduler that keeps the set of runnable handles. 0 is no handle and 1 is the main thread's.
abbrev fair : Scheduler (ℕ → Bool)
fair = record {
  accepts = λ handle. ltb 1 handle;
  is_runnable = λ s handle. s handle;
  make_runnable = λ handle s. update s handle true;
  make_not_runnable = λ handle s. update s handle false;
  make_runnable_lem = λ handle other s live. refl;
  make_not_runnable_lem = λ handle other s live. refl;
}

abbrev two_threads : Host (ℕ → Bool) ℕ
two_threads = record {
  scheduler = λ handle. handle == 20;
  current_thread = 10;
  interrupts_enabled = true;
  internal_to_handle =
      λ thread. if thread == 100 then some 10 else if thread == 200 then some 20 else none;
  handle_to_internal =
      λ handle. if handle == 10 then some 100 else if handle == 20 then some 200 else none;
  entry_contexts = λ handle. false;
  stack_pointers = λ handle. none;
  continuations = λ thread. none;
  copyin_blocked = λ handle. 0;
  readable_ids = λ handle. none;
  names = λ handle. none;
  next_thread_id = 7;
  suspended = λ thread. false;
  suspended_runnable = λ thread. false;
  terminating = λ thread. false;
  waiting = λ thread. false;
  wait_report = λ thread. false;
  uninterruptible = λ thread. false;
  enqueued = λ thread. false;
  wait_results = λ thread. none;
}

two_threads-IsRegistered : IsRegistered two_threads
two_threads-IsRegistered = record {
  handle_of = λ t h e. ground arith;
  thread_of = λ t h e. ground arith;
}

three_threads :
    (result : ℕ × Host (ℕ → Bool) ℕ) × (create_thread true
        (30, λ handle. handle == 20)
        300
        two_threads
      ≡ ok result)
unfolding create_thread
three_threads = (_, refl)

create_thread-IsRegistered_example :
    IsRegistered three_threads.0.1
    × (three_threads.0.0 ≡ 30)
    × (thread_t_to_handle three_threads.0.1 300 ≡ 30)
    × (handle_to_thread_t three_threads.0.1 30 ≡ 300)
    × (three_threads.0.1.internal_to_handle 100 ≡ some 10)
create_thread-IsRegistered_example =
    create_thread-IsRegistered (30, λ handle. handle == 20) 300 100 two_threads three_threads.0
      two_threads-IsRegistered (omega arith) three_threads.1

thread_destroyed-IsRegistered_example :
    let gone = thread_destroyed 20 two_threads in
    IsRegistered gone
    × IsForgotten 200 gone
    × (handle_to_thread_t gone 20 ≡ 0)
    × (gone.entry_contexts 20 ≡ false)
    × (gone.stack_pointers 20 ≡ none)
    × (gone.copyin_blocked 20 ≡ 0)
    × IsKept 100 two_threads gone
    × IsSpared 10 two_threads gone
thread_destroyed-IsRegistered_example =
    thread_destroyed-IsRegistered 20 200 100 10 two_threads two_threads-IsRegistered refl
      (λ e. omega (arith, e)) (λ e. omega (arith, e))

-- Thread 200 is suspended while runnable, and destroyed.
abbrev half_suspended : Host (ℕ → Bool) ℕ
half_suspended = set_suspended fair 200 two_threads

still_entered : half_suspended.handle_to_internal 20 ≡ some 200
unfolding set_suspended
still_entered = refl

reborn :
    (born : Host (ℕ → Bool) ℕ) × (create_thread true
        (30, λ handle. false)
        200
        (thread_destroyed 20 half_suspended)
      ≡ ok (30, born))
unfolding create_thread thread_destroyed set_suspended
reborn = (_, refl)

create_thread-thread_destroyed_example :
    (reborn.0.suspended 200 ≡ false)
    × (reborn.0.waiting 200 ≡ false)
    × (reborn.0.terminating 200 ≡ false)
    × (is_runnable fair (set_not_suspended fair 200 reborn.0) 200
        ≡ (half_suspended.suspended_runnable 200 || false))
create_thread-thread_destroyed_example =
    create_thread-thread_destroyed fair true 20 200 30 (λ handle. false) half_suspended reborn.0
      still_entered refl reborn.1

was_runnable : half_suspended.suspended_runnable 200 ≡ true
unfolding set_suspended
was_runnable = refl

abbrev machine : Machine (ℕ → Bool) ℕ
machine = record {
  host = two_threads;
  xnu = λ thread. record {
    waiting = false;
    suspended = false;
    suspended_runnable = false;
    terminating = false;
    uninterruptible = false;
    wait_report = false;
    enqueued = false;
    runnable = false;
    wait_result = WaitResult.awakened;
    sched_abort = false;
    sched_abort_safely = false;
    sched_call = true;
    at_safe_point = false;
    wake_active = false;
    timer_armed = thread == 100;
    timer_active = 1;
  };
}

abbrev first_calls : List (Hypercall × ℕ)
first_calls = (thread_set_waiting, 100) ∷ (thread_set_suspended, 200) ∷ []

abbrev go : Hypercall
go = thread_go true WaitResult.timed_out

abbrev last_calls : List (Hypercall × ℕ)
last_calls =
    (thread_set_terminating, 100) ∷ (thread_set_waiting, 200) ∷ (thread_set_not_suspended, 200) ∷ []

run-refines_example :
    IsRegistered (run fair (λ n. n - 1) first_calls machine).host
    × (view fair (run fair (λ n. n - 1) first_calls machine) 200
        ≡ replay (λ n. n - 1) first_calls (view fair machine) 200)
run-refines_example =
    run-refines fair (λ n. n - 1) first_calls machine 200 two_threads-IsRegistered
      (refl, (refl, tt)) refl

accepted : Accepted fair two_threads.internal_to_handle (first_calls ++ ((go, 100) ∷ last_calls))
accepted = (refl, (refl, (refl, (refl, (refl, (refl, tt))))))

run-IsWoken_example :
    IsWoken WaitResult.timed_out
      (view fair (run fair (λ n. n - 1) (first_calls ++ ((go, 100) ∷ last_calls)) machine) 100)
run-IsWoken_example =
    run-IsWoken (λ n. n - 1) fair first_calls last_calls 100 true WaitResult.timed_out machine
      two_threads-IsRegistered accepted (inr refl, (inl (omega arith), (inl (omega arith), tt)))

-- Leaving thread 100, which waits and is terminating.
abbrev ending : Host (ℕ → Bool) ℕ
ending = record two_threads {
  waiting = λ thread. thread == 100;
  terminating = λ thread. thread == 100;
}

-- The scheduler goes on with thread 200 if it may run, and else has none.
abbrev choose : Bool → (ℕ → Bool) → ℕ × (ℕ → Bool)
choose current s = (if s 20 then 20 else 0, update s 20 false)

-- Another thread ends the wait of thread 100 with a time-out.
abbrev times_out : Host (ℕ → Bool) ℕ → Host (ℕ → Bool) ℕ
times_out host = (thread_wakeup fair 100 WaitResult.timed_out host).1

thread_block-awakened_example :
    (back : Host (ℕ → Bool) ℕ) × (thread_block fair true choose 1 5
        (λ handle. true)
        times_out
        4660
        ending
      ≡ ok (inr WaitResult.awakened, back))
    × (back.waiting 100 ≡ false)
unfolding thread_wakeup switch_from
thread_block-awakened_example =
    thread_block-awakened fair true choose 1 5 (λ handle. true) times_out 4660 ending 20
      (update ending.scheduler 20 false) refl (omega arith) (omega arith) refl kept plain
  where
    kept :
        (times_out
            (switch_from fair 100 (record ending {
              scheduler = update ending.scheduler 20 false;
            })).1).handle_to_internal
          10
        ≡ some 100
    kept = refl

    plain :
        (times_out
            (switch_from fair 100
              (record ending { scheduler = update ending.scheduler 20 false })).1).continuations
          100
        ≡ none
    plain = refl

two_threads-IsNumbered : IsNumbered two_threads
two_threads-IsNumbered = record {
  reserved = omega arith;
  below = λ h id e. cc;
  distinct = λ h h' id e e'. cc;
}

-- An unblock too many blocks.
unmatched : is_copyio_blocked (unblock_copyin two_threads) ≡ true
unfolding unblock_copyin
unmatched = refl

-- A thread that waits does not yield.
no_yield :
    yield fair true choose 1 5 (λ handle. true) times_out 4660 true ending ≡ ok (none, ending)
unfolding yield
no_yield = refl

named : (describe_thread_handle (λ n. n) (λ n. 100 + n) 10 two_threads).0 ≡ 107
unfolding describe_thread_handle
named = refl

named_user :
    (describe_thread_handle
      (λ n. n)
      (λ n. 100 + n)
      10
      (set_id (λ n. n) (λ n. 100 + n) 100 3 two_threads)).0
    ≡ 3
unfolding describe_thread_handle set_id
named_user = refl

named_twice :
    (describe_thread_handle (λ n. n) (λ n. 100 + n) 10 (set_thread_name 100 5 two_threads)).0 ≡ 5
unfolding describe_thread_handle set_thread_name
named_twice = refl
