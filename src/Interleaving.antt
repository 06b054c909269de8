-- ===== src/Interleaving.antt =====
-- The concurrency test of fuzz/xnu/osfmk/api/osfmk_backend.c: check_state compares the order in which
-- threads get their locks with an expected one, and HostTestThread runs one such thread.
pub mod Laws
pub mod Threads
mod Tests
use sock_fuzzer.Common.{
  ℕ, zero, suc, ◌+◌, Bool, true, false, ◌||◌, Option, none, some, List, [], ◌∷◌, ◌++◌, Outcome, ok,
  stop, aborted, if◌then◌else◌, leb, ◌==◌, ◌>>=◌, length, get_elem?,
}
use sock_fuzzer.Lock.{RwType, shared, exclusive, Mode, mutex, rw_lock}

-- current_index, failed and num_expected.
pub record TestState : Type 0 where
  pub current_index : ℕ
  pub failed : Bool
  pub num_expected : ℕ

-- HostTestInit without the locks' initialisation.
abbrev pub host_test_init : TestState → TestState
host_test_init s = record s { current_index = 0; failed = false }

abbrev pub expected_order : List ℕ
expected_order =
    4 ∷ 0 ∷ 2 ∷ 2 ∷ 1 ∷ 4 ∷ 3 ∷ 4 ∷ 3 ∷ 0 ∷ 4 ∷ 0 ∷ 2 ∷ 2 ∷ 1 ∷ 3 ∷ 0 ∷ 3 ∷ 2 ∷ 0 ∷ 1 ∷ 3 ∷ 1 ∷ 2
    ∷ 0 ∷ 1 ∷ 4 ∷ 2 ∷ 3 ∷ []

-- `order` is expected_order. What is printed is left out. The abort says that the order was found.
module _ (order : List ℕ) where
  unfoldable pub check_state : (id : ℕ) → TestState → Outcome (Bool × TestState)
  check_state id s = if s.failed then ok (false, s) else elim (get_elem? order s.current_index) [
    | none ↦ ok (true, s)
    | some expected_id ↦
        (let needed = if s.num_expected == 0 then length order else s.num_expected in
          let next = s.current_index + 1 in
          if id == expected_id
          then (if leb needed next
              then stop aborted
              else ok (true, record s { current_index = next; num_expected = needed }))
          else ok (false, record s { current_index = next; failed = true }))
  ]

  -- The checks of several threads, in the order in which they happen, as the threads make them:
  -- whether each one passed.
  unfoldable pub run_checks : (ids : List ℕ) → TestState → Outcome (List Bool × TestState)
  run_checks [] s = ok ([], s)
  run_checks (id ∷ ids) s = do
    (passed, s') ← check_state id s
    (rest, s'') ← run_checks ids s'
    ok (passed ∷ rest, s'')

-- What a turn of HostTestThread calls besides check_state.
pub data TestCall : Type 0 where
  yield_internal check : TestCall
  take_lock give_lock : Mode → TestCall

-- The calls of one turn for the id of a thread, none where it aborts.
abbrev pub host_test_turn : (id : ℕ) → Option (List TestCall)
host_test_turn id =
    if id == 0
    then some (yield_internal ∷ check ∷ [])
    else if (id == 1) || (id == 4)
    then some (take_lock mutex ∷ check ∷ give_lock mutex ∷ [])
    else if (id == 2) || (id == 5)
    then some (take_lock (rw_lock shared) ∷ check ∷ give_lock (rw_lock shared) ∷ [])
    else if (id == 3) || (id == 6)
    then some (take_lock (rw_lock exclusive) ∷ check ∷ give_lock (rw_lock exclusive) ∷ [])
    else none

-- The loop of HostTestThread: `passed` is what check_state answers in turn `i`. It runs for at most
-- `turns` turns; the result is the calls and whether the loop has ended.
unfoldable pub host_test_thread :
    (id : ℕ) → (passed : ℕ → Bool) → (turns i : ℕ) → Outcome (List TestCall × Bool)
host_test_thread id passed zero i = ok ([], false)
host_test_thread id passed (suc n) i =
    let rest = host_test_thread id passed n (i + 1) in
    elim (host_test_turn id) [
      | none ↦ stop aborted
      | some calls ↦ (if passed i then rest >>= (λ r. ok (calls ++ r.0, r.1)) else ok (calls, true))
    ]
