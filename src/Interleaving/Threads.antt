-- ===== src/Interleaving/Threads.antt =====
-- On HostTestThread of fuzz/xnu/osfmk/api/osfmk_backend.c and its locks.
use sock_fuzzer.Common.{
  ℕ, zero, suc, ◌+◌, ◌<◌, ◌≡◌, refl, ap, ◌∙◌, sym, append-nil, Bool, true, false, Option, none,
  some, List, [], ◌∷◌, ◌++◌, ok, arith, Bool-cases, inl, inr,
}
use sock_fuzzer.Lock.{RwType, Mode, mutex, rw_lock}
use sock_fuzzer.Interleaving.{
  TestCall, yield_internal, check, take_lock, give_lock, host_test_turn, host_test_thread,
}

-- The lock held after the calls, none if a second lock is taken, or one is given that is not held.
unfoldable pub locks_run : Option Mode → List TestCall → Option (Option Mode)
locks_run held [] = some held
locks_run held (yield_internal ∷ cs) = locks_run held cs
locks_run held (check ∷ cs) = locks_run held cs
locks_run none (take_lock m ∷ cs) = locks_run (some m) cs
locks_run (some m') (take_lock m ∷ cs) = none
locks_run none (give_lock m ∷ cs) = none
locks_run (some mutex) (give_lock mutex ∷ cs) = locks_run none cs
locks_run (some (rw_lock RwType.shared)) (give_lock (rw_lock RwType.shared) ∷ cs) =
    locks_run none cs
locks_run (some (rw_lock RwType.exclusive)) (give_lock (rw_lock RwType.exclusive) ∷ cs) =
    locks_run none cs
locks_run (some m') (give_lock m ∷ cs) = none

turn-balanced :
    (id : ℕ)
    → id < 7
    → (calls : List TestCall) × (host_test_turn id ≡ some calls)
      × ((rest : List TestCall) → locks_run none (calls ++ rest) ≡ locks_run none rest)
unfolding locks_run
turn-balanced zero h = (_, refl, λ rest. refl)
turn-balanced (suc zero) h = (_, refl, λ rest. refl)
turn-balanced (suc (suc zero)) h = (_, refl, λ rest. refl)
turn-balanced (suc (suc (suc zero))) h = (_, refl, λ rest. refl)
turn-balanced (suc (suc (suc (suc zero)))) h = (_, refl, λ rest. refl)
turn-balanced (suc (suc (suc (suc (suc zero))))) h = (_, refl, λ rest. refl)
turn-balanced (suc (suc (suc (suc (suc (suc zero)))))) h = (_, refl, λ rest. refl)
turn-balanced (suc (suc (suc (suc (suc (suc (suc id))))))) h = absurd (omega arith)

-- A thread with one of the seven ids of LOCK_TEST does not abort by itself: in any number of turns it
-- takes one lock at a time and gives back what it took, so that it holds none between turns.
pub host_test_thread-balanced :
    (id : ℕ) (passed : ℕ → Bool) (turns i : ℕ)
    → id < 7
    → (r : List TestCall × Bool) × (host_test_thread id passed turns i ≡ ok r)
      × (locks_run none r.0 ≡ some none)
unfolding host_test_thread locks_run
host_test_thread-balanced id passed zero i h = (_, refl, refl)
host_test_thread-balanced id passed (suc n) i h =
    let (calls, turn, clean) = turn-balanced id h in
    let (r, e, balanced) = host_test_thread-balanced id passed n (i + 1) h in
    elim (Bool-cases (passed i)) [
      | inl on ↦
          ((calls ++ r.0, r.1), rw (host_test_thread, turn, on, e) refl, clean r.0 ∙ balanced)
      | inr over ↦ (
        (calls, true),
        rw (host_test_thread, turn, over) refl,
        ap (locks_run none) (sym (append-nil calls)) ∙ clean [],
      )
    ]

-- Such a thread ends with the first turn in which its check does not pass.
pub host_test_thread-end :
    (id : ℕ) (passed : ℕ → Bool) (k n i : ℕ)
    → id < 7
    → k < n
    → passed (k + i) ≡ false
    → (calls : List TestCall) × (host_test_thread id passed n i ≡ ok (calls, true))
unfolding host_test_thread
host_test_thread-end id passed zero zero i h lt e = absurd (omega arith)
host_test_thread-end id passed (suc k) zero i h lt e = absurd (omega arith)
host_test_thread-end id passed zero (suc n) i h lt e =
    let (calls, turn, clean) = turn-balanced id h in
    let start : 0 + i ≡ i = omega arith in
    let over : passed i ≡ false = rw start at e in (calls, rw (host_test_thread, turn, over) refl)
host_test_thread-end id passed (suc k) (suc n) i h lt e =
    let (calls, turn, clean) = turn-balanced id h in
    let next : k + (i + 1) ≡ suc k + i = omega arith in
    let (later, ended) = host_test_thread-end id passed k n (i + 1) h (omega arith) (rw next e) in
    elim (Bool-cases (passed i)) [
      | inl on ↦ (calls ++ later, rw (host_test_thread, turn, on, ended) refl)
      | inr over ↦ (calls, rw (host_test_thread, turn, over) refl)
    ]
