-- ===== src/Sync/Discipline/Laws.antt =====
-- On the operations of mutex.cc, spin.cc and rw_lock.cc, run through the automaton.
use sock_fuzzer.Common.{
  ℕ, true, false, Option, none, some, List, [], ◌∷◌, ◌++◌, ok, stop, aborted, ◌≡◌, refl, ◌≢◌, ◌↔◌,
  ◌∙◌, arith, steps, steps-append,
}
use sock_fuzzer.Lock.{RwType}
use sock_fuzzer.Sync.{
  SyncCall, lck_mtx_lock, lck_mtx_unlock, lck_mtx_yield, lck_mtx_try_lock, lck_mtx_assert,
  hw_lock_held, lck_rw_lock_as, lck_rw_unlock_as, lck_rw_try_lock_as, lck_rw_lock_yield_as,
  lck_rw_lock_exclusive_check_contended, lck_rw_lock_exclusive_to_shared,
  lck_rw_lock_shared_to_exclusive, lck_rw_done, lck_rw_lock,
}
use sock_fuzzer.Sync.Discipline.{step, is_shared, Operation, calls, promise, all_calls}

calls-steps :
    (held after : Option RwType) (operation : Operation)
    → promise held operation ≡ some after
    → steps step held (calls operation) ≡ some after
unfolding steps lck_mtx_lock lck_mtx_unlock lck_mtx_yield lck_mtx_try_lock lck_rw_lock_as
    lck_rw_unlock_as lck_rw_try_lock_as lck_rw_lock_yield_as lck_rw_lock_exclusive_check_contended
    lck_rw_lock_exclusive_to_shared lck_rw_lock_shared_to_exclusive lck_rw_done
calls-steps held after operation e = ground arith

-- The assertions yield first, also in a critical section.
assertions_yield :
    (held : RwType)
    → (steps step (some held) lck_mtx_assert ≡ none) × (steps step (some held) hw_lock_held ≡ none)
unfolding steps lck_mtx_assert hw_lock_held
assertions_yield held = ground arith

operations-steps :
    (held after : Option RwType) (operations : List Operation)
    → steps promise held operations ≡ some after
    → steps step held (all_calls operations) ≡ some after
unfolding steps
operations-steps held after [] e = e
operations-steps held after (operation ∷ operations) e =
    go (promise held operation) (λ a. operations-steps a after operations) refl e
  where
    go :
        (o : Option (Option RwType))
        → ((a : Option RwType)
            → steps promise a operations ≡ some after
            → steps step a (all_calls operations) ≡ some after)
        → promise held operation ≡ o
        → (elim o [ none ↦ none | some a ↦ steps promise a operations ]) ≡ some after
        → steps step held (calls operation ++ all_calls operations) ≡ some after
    go none ih made e = cc
    go (some a) ih made e =
        steps-append step held a (calls operation) (all_calls operations)
          (calls-steps held a operation made)
        ∙ ih a e

-- A sequence of operations of the type Operation, each of which its caller may make as it holds the lock
-- by then, makes its calls in order: no lock is taken twice or released unheld, and no yield happens in a
-- critical section. In the end the lock is held as the operations promise. The two operations that are not of that type,
-- lck_mtx_assert and hw_lock_held, yield while the lock is held, however it is held.
pub all_calls-steps :
    (held after : Option RwType) (operations : List Operation) (type : RwType)
    → steps promise held operations ≡ some after
    → (steps step held (all_calls operations) ≡ some after)
      × (steps step (some type) lck_mtx_assert ≡ none)
      × (steps step (some type) hw_lock_held ≡ none)
all_calls-steps held after operations type allowed =
    let (mtx, hw) = assertions_yield type in
    (operations-steps held after operations allowed, mtx, hw)

-- Taking a lock again with the type that lck_rw_done gave holds it as before, and no yield in between
-- happens while it is held. lck_rw_lock aborts exactly if it is given another type than those two.
pub lck_rw_lock-lck_rw_done :
    (held : RwType) (lck_type : ℕ)
    → let (type, released) = lck_rw_done (is_shared held) in
      (again : List SyncCall) × (lck_rw_lock type ≡ ok again)
      × (steps step (some held) (released ++ again) ≡ some (some held))
      × (steps step (some held) released ≡ some none)
      × ((lck_rw_lock lck_type ≡ stop aborted)
          ↔ ((lck_type ≢ (lck_rw_done true).0) × (lck_type ≢ (lck_rw_done false).0)))
unfolding steps lck_rw_done lck_rw_lock lck_rw_lock_as
lck_rw_lock-lck_rw_done held lck_type = (
  lck_rw_lock_as held,
  ground arith,
  ground arith,
  ground arith,
  (λ e. ground arith, λ h. ground arith),
)
