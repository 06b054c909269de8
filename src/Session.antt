-- ===== src/Session.antt =====
-- HandleSession of fuzz/handlers/session.cc: one test case, from the creation of its threads to the end of
-- their processes, with the functions of fuzz/xnu/osfmk/api/osfmk_backend.c that make the threads.
mod Order
mod Laws
mod Tests
use sock_fuzzer.Common.{
  ℕ, zero, suc, Bool, true, false, Option, none, some, List, [], ◌∷◌, ◌++◌, replicate,
  if◌then◌else◌,
}
use sock_fuzzer.Process.{Waited, reap_init_children}

-- The variables of HandleSession.
pub data SessionThread : Type 0 where
  thread1 thread2 thread3 : SessionThread

pub data SessionTask : Type 0 where
  task task2 : SessionTask

-- What the session has the host and the kernel do. `commands` stands for the commands of the test case
-- with that number.
pub data SessionCall : Type 0 where
  begin_session end_session : SessionCall
  set_interrupts_enabled set_ready_for_preemption set_data_provider : Bool → SessionCall
  set_rand_seed set_thread_choices : SessionCall
  cloneproc proc_signalend proc_transend : SessionThread → SessionCall
  main_thread_create_waiting : SessionThread → SessionTask → SessionCall
  set_continuation set_id : SessionThread → (commands : ℕ) → SessionCall
  task_clear_return_wait task_deallocate : SessionTask → SessionCall
  run_until_empty : SessionCall
  thread_abort thread_deallocate : SessionThread → SessionCall
  kill_all_non_init_procs reap_init : SessionCall

-- How the session ends. A fault is the use of a null pointer.
pub data SessionEnd : Type 0 where
  ended aborted faulted reaping : SessionEnd

-- CloneTask with get_init_task: what follows cloneproc uses the thread, which is null where `made` is
-- false.
abbrev pub clone_task_from_init : (made : Bool) → SessionThread → List SessionCall
clone_task_from_init made thread =
    cloneproc thread ∷ (if made then proc_signalend thread ∷ proc_transend thread ∷ [] else [])

abbrev pub clear_task_wait : SessionTask → List SessionCall
clear_task_wait t = task_clear_return_wait t ∷ task_deallocate t ∷ []

abbrev pub start_thread : SessionThread → (commands : ℕ) → List SessionCall
start_thread thread commands = set_continuation thread commands ∷ set_id thread commands ∷ []

-- `while (XNUReapInitChildren())`, for at most `turns` calls: how many it makes. `world i` is what the waits
-- of the i-th call answer, and whether zombproc is empty before it.
module _ (world : ℕ → (ℕ → Waited) × Bool) (rounds : ℕ) where
  abbrev pub reap_again : Option Bool → (rest : Option ℕ) → Option ℕ
  reap_again none rest = none
  reap_again (some true) none = none
  reap_again (some true) (some n) = some (suc n)
  reap_again (some false) rest = some 1

  unfoldable pub reap_loop : (turns i : ℕ) → Option ℕ
  reap_loop zero i = none
  reap_loop (suc turns) i =
      reap_again (reap_init_children (world i).0 rounds 0 (world i).1) (reap_loop turns (suc i))

-- What the kernel answers: whether each thread is made, and how many calls reap the children, none if
-- they do not end.
pub record Given : Type 0 where
  pub first : Bool
  pub second : Bool
  pub third : Bool
  pub reaps : Option ℕ

abbrev pub opening : List SessionCall
opening = begin_session ∷ set_interrupts_enabled true ∷ set_ready_for_preemption false ∷ []

-- From the last thread's start to the end of all processes.
abbrev pub run_threads : List SessionCall
run_threads =
    clear_task_wait task
    ++ clear_task_wait task2
    ++ (set_data_provider true
        ∷ set_rand_seed
        ∷ set_thread_choices
        ∷ set_ready_for_preemption true
        ∷ run_until_empty
        ∷ thread_abort thread1
        ∷ run_until_empty
        ∷ thread_abort thread2
        ∷ run_until_empty
        ∷ thread_abort thread3
        ∷ run_until_empty
        ∷ thread_deallocate thread1
        ∷ thread_deallocate thread2
        ∷ thread_deallocate thread3
        ∷ run_until_empty
        ∷ set_interrupts_enabled false
        ∷ kill_all_non_init_procs
        ∷ [])

abbrev pub closing : List SessionCall
closing = run_until_empty ∷ set_data_provider false ∷ end_session ∷ []

-- The parts in order, each after the check of the one before.
abbrev pub with_third : Given → List SessionCall → List SessionCall × SessionEnd
with_third given done =
    let made = done ++ clone_task_from_init given.third thread3 in
    let ran = made ++ start_thread thread3 3 ++ run_threads in
    if given.third
    then (elim given.reaps [
      | none ↦ (ran, reaping)
      | some n ↦ (ran ++ replicate n reap_init ++ closing, ended)
    ])
    else (made, faulted)

abbrev pub with_second : Given → List SessionCall → List SessionCall × SessionEnd
with_second given done =
    let made = done ++ (main_thread_create_waiting thread2 task ∷ []) in
    if given.second then with_third given (made ++ start_thread thread2 2) else (made, aborted)

unfoldable pub handle_session : Given → List SessionCall × SessionEnd
handle_session given =
    let made = opening ++ clone_task_from_init given.first thread1 in
    if given.first then with_second given (made ++ start_thread thread1 1) else (made, faulted)
