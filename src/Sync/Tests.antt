-- ===== src/Sync/Tests.antt =====
-- A few operations on one lock, and a protected pointer.
use sock_fuzzer.Common.{
  ℕ, zero, suc, ◌+◌, ◌<◌, true, false, none, some, List, [], ◌∷◌, ok, stop, aborted, ◌≡◌, refl, ◌≢◌,
  arith, steps,
}
use sock_fuzzer.Lock.{shared}
use sock_fuzzer.Sync.{lck_mtx_assert, hw_lock_held}
use sock_fuzzer.Sync.Discipline.{
  Operation, mtx_lock, mtx_yield, mtx_unlock, rw_lock_as, shared_to_exclusive, done, step, promise,
  all_calls,
}
use sock_fuzzer.Sync.Discipline.Laws.{all_calls-steps}
use sock_fuzzer.Sync.Pointer.{VirtualLckPtr, hw_lck_ptr_init, hw_lck_ptr_destroy, hw_lck_ptr_value}
use sock_fuzzer.Sync.Pointer.Laws.{after_turns}

abbrev operations : List Operation
operations =
    mtx_lock
    ∷ mtx_yield
    ∷ mtx_unlock
    ∷ rw_lock_as shared
    ∷ shared_to_exclusive true
    ∷ done false
    ∷ []

allowed : steps promise none operations ≡ some none
unfolding steps
allowed = refl

all_calls-steps_example :
    (steps step none (all_calls operations) ≡ some none)
    × (steps step (some shared) lck_mtx_assert ≡ none)
    × (steps step (some shared) hw_lock_held ≡ none)
all_calls-steps_example = all_calls-steps none none operations shared allowed

abbrev mine : VirtualLckPtr
mine = record { protected_value = 7; owned = true; mine = true }

-- The value counts up, one for each turn.
abbrev counts : ℕ → VirtualLckPtr → VirtualLckPtr
counts i p = record p { protected_value = p.protected_value + 1 }

other_values : (j : ℕ) → j < 2 → (after_turns counts j 0 mine).protected_value ≢ 9
other_values zero h e = omega arith
other_values (suc zero) h e = omega arith
other_values (suc (suc j)) h e = omega arith

-- A pointer that is gone aborts.
gone : hw_lck_ptr_value (hw_lck_ptr_destroy (hw_lck_ptr_init 7)) ≡ stop aborted
unfolding hw_lck_ptr_value hw_lck_ptr_destroy
gone = refl

there : hw_lck_ptr_value (hw_lck_ptr_init 7) ≡ ok 7
unfolding hw_lck_ptr_value hw_lck_ptr_init
there = refl
