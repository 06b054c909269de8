-- ===== src/Executor/Tests.antt =====
-- Runs of a CoroutineExecutor.
use sock_fuzzer.Common.{
  ℕ, true, false, none, some, List, [], ◌∷◌, ok, stop, aborted, steps, ◌≡◌, refl,
}
use sock_fuzzer.Executor.{
  Executor, start_executor, create_thread, call_pending_function, mapped_memory, stack_memory,
  unmapped_memory,
}
use sock_fuzzer.Executor.Plan.{Event, create, switch, finish, Plan, plan, first_plan, run}
use sock_fuzzer.Executor.Laws.{IsSound, run-IsSound}

-- Thread 5 hands over to thread 6, which hands back and is finished later.
abbrev two_threads : List (Event ℕ)
two_threads =
    create 5 50 ∷ create 6 60 ∷ switch 5 ∷ switch 6 ∷ switch 5 ∷ finish ∷ switch 6 ∷ finish ∷ []

abbrev two_threads_end : Plan
two_threads_end = elim (steps (plan 1) (first_plan 1) two_threads) [
  | none ↦ first_plan 1
  | some p ↦ p
]

run-IsSound_example :
    (e' : Executor ℕ) × (run two_threads (start_executor 1) ≡ ok e') × IsSound 1 two_threads_end e'
unfolding steps
run-IsSound_example = run-IsSound 1 two_threads two_threads_end refl

no_memory : create_thread {F = ℕ} false true 5 50 (start_executor 1) ≡ stop aborted
unfolding create_thread
no_memory = refl

no_guard : create_thread {F = ℕ} true false 5 50 (start_executor 1) ≡ stop aborted
unfolding create_thread
no_guard = refl

nothing_pending :
    call_pending_function (record (start_executor {F = ℕ} 1) { active = 5 }) ≡ stop aborted
unfolding call_pending_function
nothing_pending = refl

unmaps_all : unmapped_memory (stack_memory 65536).0 ≡ mapped_memory 65536
unmaps_all = refl
