-- ===== src/Executor/Plan.antt =====
-- Events of an executor, and which sequences of them make sense: a coroutine is made in memory that no other one
-- has had, and control goes only to coroutines whose function has not returned.
use sock_fuzzer.Common.{
  ℕ, Bool, true, false, Option, none, some, List, [], ◌∷◌, Outcome, ok, ◌>>=◌, if◌then◌else◌, ◌==◌,
  update,
}
use sock_fuzzer.Executor.{Executor, create_thread, switch_to, finish_thread}

pub data Event (F : Type 0) : Type 0 where
  create : (thread : ℕ) → (target : F) → Event F
  switch : (thread : ℕ) → Event F
  finish : Event F

-- The coroutines made so far, those that can be switched to, and the one that runs.
pub record Plan : Type 0 where
  pub made : ℕ → Bool
  pub alive : ℕ → Bool
  pub running : ℕ

abbrev pub first_plan : (main_thread : ℕ) → Plan
first_plan main_thread = record {
  made = λ thread. thread == main_thread;
  alive = λ thread. thread == main_thread;
  running = main_thread;
}

abbrev pub after_create : (thread : ℕ) → Plan → Plan
after_create thread p = record p {
  made = update p.made thread true;
  alive = update p.alive thread true;
}

abbrev pub after_finish : (main_thread : ℕ) → Plan → Plan
after_finish main_thread p = record p {
  alive = update p.alive p.running false;
  running = main_thread;
}

module _ {F : Type 0} where
  abbrev pub occur : Event F → Executor F → Outcome (Executor F)
  occur (create thread target) e = create_thread true true thread target e
  occur (switch thread) e = switch_to thread e
  occur finish e = finish_thread e

  abbrev pub run : List (Event F) → Executor F → Outcome (Executor F)
  run [] e = ok e
  run (event ∷ events) e = occur event e >>= run events

  -- The function of the main thread is not one of these, and does not return.
  abbrev pub plan : (main_thread : ℕ) → Plan → Event F → Option Plan
  plan main_thread p (create thread target) =
      if p.made thread then none else some (after_create thread p)
  plan main_thread p (switch thread) =
      if p.alive thread then some (record p { running = thread }) else none
  plan main_thread p finish =
      if p.running == main_thread then none else some (after_finish main_thread p)
