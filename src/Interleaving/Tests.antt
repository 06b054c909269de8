-- ===== src/Interleaving/Tests.antt =====
-- The order that the program looks for, and threads that run two turns.
use sock_fuzzer.Common.{ℕ, ◌≡◌, ◌↔◌, refl, Bool, true, [], ◌∷◌, stop, aborted, ltb, take, arith}
use sock_fuzzer.Interleaving.{TestState, expected_order, host_test_init, check_state, run_checks}
use sock_fuzzer.Interleaving.Laws.{run_checks-found}

-- num_expected is 10 in the program.
abbrev ten : TestState
ten = record { current_index = 3; failed = true; num_expected = 10 }

run_checks-found_example :
    (run_checks expected_order (4 ∷ 0 ∷ 1 ∷ []) (host_test_init ten) ≡ stop aborted)
    ↔ (take 10 (4 ∷ 0 ∷ 1 ∷ []) ≡ take 10 expected_order)
run_checks-found_example =
    run_checks-found expected_order (4 ∷ 0 ∷ 1 ∷ []) ten (omega arith) (omega arith)

-- The whole order is found.
found : run_checks expected_order expected_order (host_test_init ten) ≡ stop aborted
unfolding run_checks check_state
found = refl

abbrev two_turns : ℕ → Bool
two_turns i = ltb i 1
