-- ===== src/Executor/Laws.antt =====
-- On any sequence of events of a CoroutineExecutor that makes sense.
use std.Option.{none≢some}
use sock_fuzzer.Common.{
  ℕ, true, false, not, ◌&&◌, none, some, List, [], ◌∷◌, ◌++◌, ok, ◌>>=◌, steps, is_some, update,
  Bool-cases, Option-cases, inl, inr, if◌then◌else◌, ◌==◌, ◌≡◌, refl, ap, subst, ◌∙◌, ◌+◌, arith,
}
use sock_fuzzer.Executor.{
  Executor, start_executor, create_thread, call_pending_function, switch_to, finish_thread,
}
use sock_fuzzer.Executor.Plan.{
  Event, create, switch, finish, Plan, occur, run, first_plan, after_create, after_finish, plan,
}

abbrev pub times : (thread : ℕ) → List ℕ → ℕ
times thread [] = 0
times thread (other ∷ others) = (if thread == other then 1 else 0) + times thread others

times-append :
    (thread : ℕ) (others rest : List ℕ)
    → times thread (others ++ rest) ≡ times thread others + times thread rest
times-append thread [] rest = omega arith
times-append thread (other ∷ others) rest = omega (arith, times-append thread others rest)

module _ {F : Type 0} where
  -- How often a thread's function has been called, and how often its end has been told.
  abbrev pub calls_of : (thread : ℕ) → List (ℕ × F) → ℕ
  calls_of thread [] = 0
  calls_of thread ((other, target) ∷ calls) =
      (if thread == other then 1 else 0) + calls_of thread calls

  calls_of-append :
      (thread : ℕ) (calls rest : List (ℕ × F))
      → calls_of thread (calls ++ rest) ≡ calls_of thread calls + calls_of thread rest
  calls_of-append thread [] rest = omega arith
  calls_of-append thread ((other, target) ∷ calls) rest =
      omega (arith, calls_of-append thread calls rest)

  -- What holds of a thread.
  pub record IsSoundAt (main_thread : ℕ) (p : Plan) (e : Executor F) (t : ℕ) : Type 0 where
    pub waits : is_some (e.pending_functions t) ≡ (p.made t && not (e.entered t))
    pub entered_made : e.entered t ≡ true → p.made t ≡ true
    pub unentered_alive : e.entered t ≡ false → p.alive t ≡ p.made t
    pub alive_made : p.alive t ≡ true → p.made t ≡ true
    pub called : calls_of t e.calls ≡ (if e.entered t && not (t == main_thread) then 1 else 0)
    pub told : times t e.destroyed ≡ (if p.made t && not (p.alive t) then 1 else 0)

  pub record IsSound (main_thread : ℕ) (p : Plan) (e : Executor F) : Type 0 where
    pub main : e.main_thread ≡ main_thread
    pub running : e.active ≡ p.running
    pub current : e.g_current_thread ≡ e.active
    pub main_entered : e.entered main_thread ≡ true
    pub main_alive : p.alive main_thread ≡ true
    pub active_entered : e.entered e.active ≡ true
    pub active_alive : p.alive e.active ≡ true
    pub at : (t : ℕ) → IsSoundAt main_thread p e t

  create-IsSound :
      (main_thread thread : ℕ) (target : F) (p : Plan) (e : Executor F)
      → IsSound main_thread p e
      → p.made thread ≡ false
      → (e' : Executor F) × (create_thread true true thread target e ≡ ok e')
        × IsSound main_thread (after_create thread p) e'
  unfolding create_thread
  create-IsSound main_thread thread target p e s fresh =
      let here = s.at thread in
      let unentered : e.entered thread ≡ false = ground arith in
      (
        _,
        refl,
        record {
          main = s.main;
          running = s.running;
          current = s.current;
          main_entered = ground arith;
          main_alive = ground arith;
          active_entered = ground arith;
          active_alive = ground arith;
          at = λ t.
              let there = s.at t in
              record {
                waits = ground arith;
                entered_made = λ h. ground arith;
                unentered_alive = λ h. ground arith;
                alive_made = λ h. ground arith;
                called = ground arith;
                told = ground arith;
              };
        },
      )

  -- Who runs does not matter for it.
  IsSoundAt-moved :
      (main_thread t running active current : ℕ) (p : Plan) (e : Executor F)
      → IsSoundAt main_thread p e t
      → IsSoundAt main_thread
          (record p { running = running })
          (record e { active = active; g_current_thread = current })
          t
  IsSoundAt-moved main_thread t running active current p e there = record {
    waits = there.waits;
    entered_made = there.entered_made;
    unentered_alive = there.unentered_alive;
    alive_made = there.alive_made;
    called = there.called;
    told = there.told;
  }

  -- A coroutine that has been entered goes on.
  resume-IsSound :
      (main_thread thread : ℕ) (p : Plan) (e : Executor F)
      → IsSound main_thread p e
      → p.alive thread ≡ true
      → e.entered thread ≡ true
      → IsSound main_thread
          (record p { running = thread })
          (record e { active = thread; g_current_thread = thread })
  resume-IsSound main_thread thread p e s living known = record {
    main = s.main;
    running = refl;
    current = refl;
    main_entered = s.main_entered;
    main_alive = s.main_alive;
    active_entered = known;
    active_alive = living;
    at = λ t. IsSoundAt-moved main_thread t thread thread thread p e (s.at t);
  }

  -- A coroutine that has not been entered calls its function.
  begin-IsSound :
      (main_thread thread : ℕ) (target : F) (p : Plan) (e : Executor F)
      → IsSound main_thread p e
      → p.alive thread ≡ true
      → e.entered thread ≡ false
      → IsSound main_thread
          (record p { running = thread })
          (record e {
            active = thread;
            entered = update e.entered thread true;
            g_current_thread = thread;
            pending_functions = update e.pending_functions thread none;
            calls = e.calls ++ (thread, target) ∷ [];
          })
  begin-IsSound main_thread thread target p e s living new =
      let here = s.at thread in
      record {
        main = s.main;
        running = refl;
        current = refl;
        main_entered = ground (arith, s.main_entered);
        main_alive = s.main_alive;
        active_entered = ground arith;
        active_alive = living;
        at = λ t.
            let there = s.at t in
            let more = calls_of-append t e.calls ((thread, target) ∷ []) in
            record {
              waits = ground arith;
              entered_made = λ h. ground arith;
              unentered_alive = λ h. ground arith;
              alive_made = there.alive_made;
              called = ground (arith, more, s.main_entered);
              told = there.told;
            };
      }

  switch-IsSound :
      (main_thread thread : ℕ) (p : Plan) (e : Executor F)
      → IsSound main_thread p e
      → p.alive thread ≡ true
      → (e' : Executor F) × (switch_to thread e ≡ ok e')
        × IsSound main_thread (record p { running = thread }) e'
  unfolding switch_to call_pending_function
  switch-IsSound main_thread thread p e s living = elim (Bool-cases (e.active == thread)) [
    | inl already ↦
        let same : e.active ≡ thread = ground arith in
        (
          e,
          rw already refl,
          record {
            main = s.main;
            running = same;
            current = s.current;
            main_entered = s.main_entered;
            main_alive = s.main_alive;
            active_entered = s.active_entered;
            active_alive = s.active_alive;
            at = λ t. IsSoundAt-moved main_thread t thread e.active e.g_current_thread p e (s.at t);
          },
        )
    | inr other ↦ elim (Bool-cases (e.entered thread)) [
      | inl known ↦ (_, ground arith, resume-IsSound main_thread thread p e s living known)
      | inr new ↦
          let here = s.at thread in
          let apart : (thread == e.main_thread) ≡ false = ground (arith, s.main, s.main_entered) in
          elim (Option-cases (e.pending_functions thread)) [
            | inl nothing ↦ absurd (ground arith)
            | inr (target, pending) ↦
                (_, ground arith, begin-IsSound main_thread thread target p e s living new)
          ]
    ]
  ]

  finish-IsSound :
      (main_thread : ℕ) (p : Plan) (e : Executor F)
      → IsSound main_thread p e
      → (p.running == main_thread) ≡ false
      → (e' : Executor F) × (finish_thread e ≡ ok e')
        × IsSound main_thread (after_finish main_thread p) e'
  unfolding finish_thread switch_to
  finish-IsSound main_thread p e s away =
      let gone : Executor F = record e {
        destroyed = e.destroyed ++ e.active ∷ [];
        active = main_thread;
        g_current_thread = main_thread;
      } in
      let here = s.at e.active in
      (
        gone,
        ground (arith, s.main, s.running, s.main_entered),
        record {
          main = s.main;
          running = refl;
          current = refl;
          main_entered = s.main_entered;
          main_alive = ground (arith, s.running, s.main_alive);
          active_entered = s.main_entered;
          active_alive = ground (arith, s.running, s.main_alive);
          at = λ t.
              let there = s.at t in
              let more = times-append t e.destroyed (e.active ∷ []) in
              record {
                waits = there.waits;
                entered_made = there.entered_made;
                unentered_alive = λ h. ground (arith, s.running, s.active_entered);
                alive_made = λ h. ground (arith, s.running);
                called = there.called;
                told = ground (arith, more, s.running, s.active_alive);
              };
        },
      )

  start-IsSound :
      (co_active : ℕ) → IsSound co_active (first_plan co_active) (start_executor co_active)
  start-IsSound co_active = record {
    main = refl;
    running = refl;
    current = refl;
    main_entered = ground arith;
    main_alive = ground arith;
    active_entered = ground arith;
    active_alive = ground arith;
    at = λ t. record {
      waits = ground arith;
      entered_made = λ h. h;
      unentered_alive = λ h. refl;
      alive_made = λ h. h;
      called = ground arith;
      told = ground arith;
    };
  }

  -- A step that is taken, and the rest of the run.
  run_on :
      (main_thread : ℕ) (event : Event F) (events : List (Event F)) (last : Plan)
      (e e₁ : Executor F)
      → occur event e ≡ ok e₁
      → (e' : Executor F) × (run events e₁ ≡ ok e') × IsSound main_thread last e'
      → (e' : Executor F) × (run (event ∷ events) e ≡ ok e') × IsSound main_thread last e'
  run_on main_thread event events last e e₁ taken (e', rest, s) =
      (e', ap (λ o. o >>= run events) taken ∙ rest, s)

  run-IsSound_from :
      (main_thread : ℕ) (events : List (Event F)) (p last : Plan) (e : Executor F)
      → IsSound main_thread p e
      → steps (plan main_thread) p events ≡ some last
      → (e' : Executor F) × (run events e ≡ ok e') × IsSound main_thread last e'
  unfolding steps
  run-IsSound_from main_thread [] p last e s allowed =
      (e, refl, subst (λ q. IsSound main_thread q e) (cc allowed) s)
  run-IsSound_from main_thread (create thread target ∷ events) p last e s allowed =
      elim (Bool-cases (p.made thread)) [
        | inl old ↦ absurd (none≢some {a = last} (ground (arith, allowed, old)))
        | inr fresh ↦
            let (e₁, taken, s₁) = create-IsSound main_thread thread target p e s fresh in
            run_on main_thread (create thread target) events last e e₁ taken (
              run-IsSound_from main_thread events (after_create thread p) last e₁ s₁
                (ground (arith, allowed, fresh)))
      ]
  run-IsSound_from main_thread (switch thread ∷ events) p last e s allowed =
      elim (Bool-cases (p.alive thread)) [
        | inl living ↦
            let (e₁, taken, s₁) = switch-IsSound main_thread thread p e s living in
            run_on main_thread (switch thread) events last e e₁ taken (
              run-IsSound_from main_thread events (record p { running = thread }) last e₁ s₁
                (ground (arith, allowed, living)))
        | inr dead ↦ absurd (none≢some {a = last} (ground (arith, allowed, dead)))
      ]
  run-IsSound_from main_thread (finish ∷ events) p last e s allowed =
      elim (Bool-cases (p.running == main_thread)) [
        | inl idle ↦ absurd (none≢some {a = last} (ground (arith, allowed, idle)))
        | inr away ↦
            let (e₁, taken, s₁) = finish-IsSound main_thread p e s away in
            run_on main_thread finish events last e e₁ taken (
              run-IsSound_from main_thread events (after_finish main_thread p) last e₁ s₁
                (ground (arith, allowed, away)))
      ]

  -- Start the executor on a coroutine and let events happen, any that make sense: threads are made, with memory
  -- at hand, under handles that are not in use, control goes only to coroutines whose function has not returned, and the
  -- main thread does not return. Then nothing aborts; the coroutine that runs is the one the events say, and
  -- g_current_thread names it; and for each thread, its function is pending exactly until the thread is first
  -- switched to, it is called once then and never again, and its end is told exactly once, when it returns.
  pub run-IsSound :
      (co_active : ℕ) (events : List (Event F)) (last : Plan)
      → steps (plan co_active) (first_plan co_active) events ≡ some last
      → (e' : Executor F) × (run events (start_executor co_active) ≡ ok e')
        × IsSound co_active last e'
  run-IsSound co_active events last =
      run-IsSound_from co_active events (first_plan co_active) last (start_executor co_active)
        (start-IsSound co_active)
