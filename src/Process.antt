-- ===== src/Process.antt =====
-- Ending processes: KillAllNonInitProcs and XNUReapInitChildren of fuzz/xnu/bsd/api/bsd_backend.c.
pub mod Laws
mod Tests
use sock_fuzzer.Common.{
  ℕ, zero, suc, ◌+◌, Bool, true, false, ◌||◌, Option, none, some, List, [], ◌∷◌, ◌++◌,
  if◌then◌else◌, ◌==◌, get_elem?, set, replicate,
}

-- The address of a proc and its p_pid.
pub record Proc : Type 0 where
  pub address : ℕ
  pub pid : ℕ

-- SIGKILL for a pid, and the report of how many processes are left.
pub data ProcessCall : Type 0 where
  kill : (pid : ℕ) → ProcessCall
  failed_to_kill : (count : ℕ) → ProcessCall

-- The loop over pids[i], for as many rounds as are left.
unfoldable pub kill_pids : (pids : List ℕ) → (rounds i : ℕ) → List ProcessCall
kill_pids pids zero i = []
kill_pids pids (suc k) i =
    kill (elim (get_elem? pids i) [ none ↦ 0 | some pid ↦ pid ]) ∷ kill_pids pids k (i + 1)

module _ (kernproc initproc : ℕ) where
  abbrev pub spared : Proc → Bool
  spared p = (p.address == kernproc) || (p.address == initproc)

  -- `pids[n++] = pid` for the processes that are not spared: the array and n.
  unfoldable pub collect_pids : List Proc → (pids : List ℕ) → (n : ℕ) → List ℕ × ℕ
  collect_pids [] pids n = (pids, n)
  collect_pids (p ∷ ps) pids n =
      let skipped = collect_pids ps pids n in
      let stored = collect_pids ps (set pids n p.pid) (n + 1) in
      if spared p then skipped else stored

  unfoldable pub count_left : List Proc → (n : ℕ) → ℕ
  count_left [] n = n
  count_left (p ∷ ps) n = if spared p then count_left ps n else count_left ps (n + 1)

  -- `procs` is allproc before the signals, `left` after them; calloc gives nprocs zeros.
  unfoldable pub kill_all_non_init_procs :
      (nprocs : ℕ) → (procs left : List Proc) → List ProcessCall
  kill_all_non_init_procs nprocs procs left =
      let (pids, n) = collect_pids procs (replicate nprocs 0) 0 in
      let remaining = count_left left 0 in
      kill_pids pids n 0 ++ (if remaining == 0 then [] else failed_to_kill remaining ∷ [])

-- What one wait4 with WNOHANG stores in `retval`, and whether zombproc is empty after it.
pub record Waited : Type 0 where
  pub retval : ℕ
  pub empty : Bool

-- For at most `rounds` rounds; none if zombproc is not empty then.
unfoldable pub reap_init_children :
    (world : ℕ → Waited) → (rounds i : ℕ) → (empty : Bool) → Option Bool
reap_init_children world zero i empty = if empty then some false else none
reap_init_children world (suc n) i empty =
    let rest = reap_init_children world n (i + 1) (world i).empty in
    if empty then some false else if (world i).retval == 0 then some false else rest
