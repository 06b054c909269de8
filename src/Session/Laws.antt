-- ===== src/Session/Laws.antt =====
-- On HandleSession of fuzz/handlers/session.cc, run through the two automata.
use sock_fuzzer.Common.{
  ℕ, suc, Bool, true, false, Option, some, steps, if◌then◌else◌, ◌≡◌, refl, ◌↔◌, arith, ◌&&◌,
}
use sock_fuzzer.Process.{Waited, reap_init_children}
use sock_fuzzer.Process.Laws.{reap_init_children_false}
use sock_fuzzer.Session.{
  SessionThread, thread1, thread2, thread3, ended, aborted, faulted, Given, reap_loop,
  handle_session,
}
use sock_fuzzer.Session.Order.{Life, unborn, released, live, Mode, keep}

-- If the first call of XNUReapInitChildren ends, the loop around it ends with that call.
pub reap_loop-once :
    (world : ℕ → (ℕ → Waited) × Bool) (rounds turns : ℕ) (answer : Bool)
    → reap_init_children (world 0).0 rounds 0 (world 0).1 ≡ some answer
    → reap_loop world rounds (suc turns) 0 ≡ some 1
unfolding reap_loop
reap_loop-once world rounds turns true ends = absurd (reap_init_children_false _ _ _ _ ends)
reap_loop-once world rounds turns false ends = rw ends refl

-- The mode in which a session begins: no session is open.
abbrev pub idle : (interrupts preemption provider : Bool) → Mode
idle interrupts preemption provider = record {
  open_session = false;
  interrupts = interrupts;
  preemption = preemption;
  provider = provider;
}

abbrev pub given : (first second third : Bool) → Option ℕ → Given
given first second third reaps = record {
  first = first;
  second = second;
  third = third;
  reaps = reaps;
}

life_of :
    (first second third : Bool) (t : SessionThread)
    → let calls = (handle_session (given first second third (some 1))).0 in
      (l : Life) × (steps (live t) unborn calls ≡ some l)
      × ((l ≡ released) ↔ ((first && (second && third)) ≡ true))
unfolding handle_session steps
life_of false second third thread1 = (_, refl, (λ e. ground arith, λ e. ground arith))
life_of false second third thread2 = (_, refl, (λ e. ground arith, λ e. ground arith))
life_of false second third thread3 = (_, refl, (λ e. ground arith, λ e. ground arith))
life_of true false third thread1 = (_, refl, (λ e. ground arith, λ e. ground arith))
life_of true false third thread2 = (_, refl, (λ e. ground arith, λ e. ground arith))
life_of true false third thread3 = (_, refl, (λ e. ground arith, λ e. ground arith))
life_of true true false thread1 = (_, refl, (λ e. ground arith, λ e. ground arith))
life_of true true false thread2 = (_, refl, (λ e. ground arith, λ e. ground arith))
life_of true true false thread3 = (_, refl, (λ e. ground arith, λ e. ground arith))
life_of true true true thread1 = (_, refl, (λ e. ground arith, λ e. ground arith))
life_of true true true thread2 = (_, refl, (λ e. ground arith, λ e. ground arith))
life_of true true true thread3 = (_, refl, (λ e. ground arith, λ e. ground arith))

mode_of :
    (first second third interrupts preemption provider : Bool)
    → let calls = (handle_session (given first second third (some 1))).0 in
      (m : Mode) × (steps keep (idle interrupts preemption provider) calls ≡ some m)
      × (m.open_session ≡ (if first && (second && third) then false else true))
unfolding handle_session steps
mode_of false second third interrupts preemption provider = (_, refl, refl)
mode_of true false third interrupts preemption provider = (_, refl, refl)
mode_of true true false interrupts preemption provider = (_, refl, refl)
mode_of true true true interrupts preemption provider = (_, refl, refl)

end_of :
    (first second third : Bool)
    → (handle_session (given first second third (some 1))).1
      ≡ (if first then if second then if third then ended else faulted else aborted else faulted)
unfolding handle_session
end_of false second third = refl
end_of true false third = refl
end_of true true false = refl
end_of true true true = refl

-- If the first call of XNUReapInitChildren ends, a session treats each of its threads in order: it makes
-- it, gives it its continuation before anything runs, runs it, aborts it, runs again, and releases it, and it
-- does all of this exactly if all three threads are made. Threads run only with the bytes of the test case at hand, and
-- the session is closed, with interrupts off while processes end, exactly if it ends so; without its
-- second thread it aborts, without the first or third it uses a null pointer.
pub handle_session-order :
    (first second third interrupts preemption provider answer : Bool) (t : SessionThread)
    (world : ℕ → (ℕ → Waited) × Bool) (rounds turns : ℕ)
    → reap_init_children (world 0).0 rounds 0 (world 0).1 ≡ some answer
    → let session =
        handle_session (given first second third (reap_loop world rounds (suc turns) 0)) in
      ((l : Life) × (steps (live t) unborn session.0 ≡ some l)
        × ((l ≡ released) ↔ ((first && (second && third)) ≡ true)))
      × ((m : Mode) × (steps keep (idle interrupts preemption provider) session.0 ≡ some m)
          × (m.open_session ≡ (if first && (second && third) then false else true)))
      × (session.1 ≡ (
          if first then if second then if third then ended else faulted else aborted else faulted))
handle_session-order first second third interrupts preemption provider answer t world rounds turns
      ends =
    rw (reap_loop-once world rounds turns answer ends) (
      life_of first second third t,
      mode_of first second third interrupts preemption provider,
      end_of first second third,
    )
