-- ===== src/Walk.antt =====
-- fuzz/xnu/osfmk/api/scheduler_state.c: how the host walks over the kernel's tasks and threads, and how
-- a thread is printed. A queue of XNU is the list of its elements, in the order of queue_next.
pub mod Laws
mod Tests
use sock_fuzzer.Common.{
  ℕ, zero, suc, Bool, true, false, Option, none, some, List, [], ◌∷◌, ◌++◌, if◌then◌else◌, ◌==◌,
}
use sock_fuzzer.Thread.{Thread}

abbrev pub queue_first : List ℕ → Option ℕ
queue_first [] = none
queue_first (x ∷ xs) = some x

-- queue_next of an element, none where that is the head of the queue again.
abbrev pub queue_next : ℕ → List ℕ → Option ℕ
queue_next t [] = none
queue_next t (x ∷ xs) = if t == x then queue_first xs else queue_next t xs

-- No argument, or NULL, asks for the first element. GetThread does the same on `threads`.
unfoldable pub get_task : (tasks : List ℕ) → (task : Option ℕ) → Option ℕ
get_task tasks none = queue_first tasks
get_task tasks (some task) = queue_next task tasks

unfoldable pub get_thread : (threads : List ℕ) → (thread : Option ℕ) → Option ℕ
get_thread threads none = queue_first threads
get_thread threads (some thread) = queue_next thread threads

-- What print_thread writes for the flags of a thread; `comma` is ", ".
pub data Piece : Type 0 where
  comma th_wait th_susp th_run th_unint th_terminate th_terminate2 th_wait_report th_idle : Piece

-- `if (flag) { if (printed) printf(", "); printf(name); printed = true; }`
abbrev pub print_flag : (flag : Bool) → Piece → List Piece × Bool → List Piece × Bool
print_flag flag name (out, printed) =
    if flag
    then (out ++ (if printed then comma ∷ name ∷ [] else name ∷ []), true)
    else (out, printed)

abbrev pub print_flags : List (Bool × Piece) → List Piece × Bool → List Piece × Bool
print_flags [] s = s
print_flags ((flag, name) ∷ rest) s = print_flags rest (print_flag flag name s)

-- The flags in the order of the code. The host holds no thread to be idle.
abbrev pub thread_flags : Thread → List (Bool × Piece)
thread_flags t =
    (t.waiting, th_wait)
    ∷ (t.suspended, th_susp)
    ∷ (t.runnable, th_run)
    ∷ (t.uninterruptible, th_unint)
    ∷ (t.terminating, th_terminate)
    ∷ (t.enqueued, th_terminate2)
    ∷ (t.wait_report, th_wait_report)
    ∷ (false, th_idle)
    ∷ []

-- Nothing is written unless the run is verbose and the thread is not NULL.
unfoldable pub print_thread : (verbose : Bool) → Option Thread → List Piece
print_thread verbose none = []
print_thread verbose (some t) = if verbose then (print_flags (thread_flags t) ([], false)).0 else []
