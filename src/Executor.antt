-- ===== src/Executor.antt =====
-- CoroutineExecutor of fuzz/executor/coroutine_executor.cc: the threads as coroutines of libco. What
-- libco keeps is the coroutine that runs and which ones have been entered. The addresses
-- of coroutines are numbers; what the sanitizers and backtraces are told is left out.
pub mod Plan
mod Laws
mod Tests
use sock_fuzzer.Common.{
  ℕ, Bool, true, false, not, ◌&&◌, ◌||◌, Option, none, some, List, [], ◌∷◌, ◌++◌, Outcome, ok, stop,
  aborted, ◌>>=◌, if◌then◌else◌, ◌==◌, update, ◌+◌, ◌-◌, ◌*◌,
}

-- F are the functions that threads run. `calls` and `destroyed` record, oldest first, the functions that
-- are called, each with the active thread, and the callbacks of ThreadDestroyed.
pub record Executor (F : Type 0) : Type 0 where
  pub main_thread : ℕ
  pub active : ℕ
  pub entered : ℕ → Bool
  pub g_current_thread : ℕ
  pub pending_functions : ℕ → Option F
  pub calls : List (ℕ × F)
  pub destroyed : List ℕ

module _ {F : Type 0} where
  -- The constructor, on the coroutine that runs.
  abbrev pub start_executor : (co_active : ℕ) → Executor F
  start_executor co_active = record {
    main_thread = co_active;
    active = co_active;
    entered = λ thread. thread == co_active;
    g_current_thread = co_active;
    pending_functions = λ thread. none;
    calls = [];
    destroyed = [];
  }

  -- `mapped` and `protected` are whether mmap and mprotect succeed, and `thread` is the coroutine that
  -- co_derive makes in the new memory.
  unfoldable pub create_thread :
      (mapped protected : Bool) → (thread : ℕ) → (target : F) → Executor F → Outcome (Executor F)
  create_thread mapped protected thread target e =
      if mapped && protected
      then ok (record e {
        entered = update e.entered thread false;
        pending_functions = update e.pending_functions thread (some target);
      })
      else stop aborted

  -- Up to the call of the pending function.
  unfoldable pub call_pending_function : Executor F → Outcome (Executor F)
  call_pending_function e =
      if e.active == e.main_thread then stop aborted else (elim (e.pending_functions e.active) [
        | none ↦ stop aborted
        | some target ↦ ok (record e {
          g_current_thread = e.active;
          pending_functions = update e.pending_functions e.active none;
          calls = e.calls ++ (e.active, target) ∷ [];
        })
      ])

  -- The coroutine that co_switch goes to goes on after its own co_switch, or begins.
  abbrev pub resume : Executor F → Outcome (Executor F)
  resume e =
      if e.entered e.active
      then ok (record e { g_current_thread = e.active })
      else call_pending_function (record e { entered = update e.entered e.active true })

  unfoldable pub switch_to : (thread : ℕ) → Executor F → Outcome (Executor F)
  switch_to thread e = if e.active == thread then ok e else resume (record e { active = thread })

  -- What follows the pending function when it returns.
  unfoldable pub finish_thread : Executor F → Outcome (Executor F)
  finish_thread e = switch_to e.main_thread (record e { destroyed = e.destroyed ++ e.active ∷ [] })

-- The lengths of the guard page and of the stack, and the memory that CreateThread maps and gives libco, and that
-- DeleteThread unmaps: an address and a length.
abbrev pub stack_size : ℕ
stack_size = 4096 * 32

abbrev pub mapped_memory : (mapping : ℕ) → ℕ × ℕ
mapped_memory mapping = (mapping, 4096 + stack_size)

abbrev pub stack_memory : (mapping : ℕ) → ℕ × ℕ
stack_memory mapping = (mapping + 4096, stack_size)

abbrev pub unmapped_memory : (handle : ℕ) → ℕ × ℕ
unmapped_memory handle = (handle - 4096, stack_size + 4096)
