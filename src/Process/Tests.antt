-- ===== src/Process/Tests.antt =====
-- Four processes, of which the first two are the kernel's and init.
use sock_fuzzer.Common.{ℕ, zero, suc, ◌≡◌, refl, true, false, some, List, [], ◌∷◌, arith}
use sock_fuzzer.Process.{
  Proc, kill, failed_to_kill, kill_all_non_init_procs, Waited, reap_init_children,
}
use sock_fuzzer.Process.Laws.{kill_all_non_init_procs-victims}

abbrev procs : List Proc
procs =
    record { address = 100; pid = 0 }
    ∷ record { address = 200; pid = 1 }
    ∷ record { address = 300; pid = 7 }
    ∷ record { address = 400; pid = 9 }
    ∷ []

-- The process with pid 9 stays.
abbrev left : List Proc
left = record { address = 200; pid = 1 } ∷ record { address = 400; pid = 9 } ∷ []

kill_all_non_init_procs-victims_example :
    kill_all_non_init_procs 100 200 4 procs left ≡ kill 7 ∷ kill 9 ∷ failed_to_kill 1 ∷ []
kill_all_non_init_procs-victims_example =
    kill_all_non_init_procs-victims 100 200 4 procs left (omega arith)

-- Both zombies are reaped.
abbrev obliging : ℕ → Waited
obliging zero = record { retval = 7; empty = false }
obliging (suc i) = record { retval = 9; empty = true }

reaped : reap_init_children obliging 5 0 false ≡ some false
unfolding reap_init_children
reaped = refl
