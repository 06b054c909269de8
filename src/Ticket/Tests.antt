-- ===== src/Ticket/Tests.antt =====
-- Two mutexes, and the life of a ticket lock at address 100.
use sock_fuzzer.Common.{
  ℕ, Bool, true, false, some, Outcome, ok, stop, aborted, ◌≡◌, refl, ◌⊎◌, ◌+◌, ◌<◌, zero, suc,
  arith, if◌then◌else◌, ◌==◌, update, update_self,
}
use sock_fuzzer.Ticket.{
  Mutexes, Locks, invalid, acquired, contended, allocate, invalidate, lock, unlock, held, is_valid,
  has_waiters, destroy, yield_to_waiters, try_lock,
}
use sock_fuzzer.Ticket.Kernel.{
  lck_ticket_assert_owned, lck_ticket_lock, lck_ticket_unlock, hw_lck_ticket_init_locked,
  hw_lck_ticket_lock_allow_invalid, hw_lck_ticket_lock_to, hw_lck_ticket_lock_try,
  hw_lck_ticket_reserve_allow_invalid, hw_lck_ticket_wait, lck_ticket_destroy,
}
use sock_fuzzer.Ticket.Laws.{IsSplit, lock-status, lck_ticket_lock-invalidated}
use sock_fuzzer.Ticket.Destruction.{after_turns, destroy-end}

-- The next mutex, whether the current thread holds one, and whether one has waiters.
pub record Simple : Type 0 where
  pub next : ℕ
  pub owned : ℕ → Bool
  pub waited : ℕ → Bool

abbrev simple : Mutexes Simple
simple = record {
  allocate = λ m. (m.next, record m { next = m.next + 1 });
  free = λ mutex m. record m { owned = update m.owned mutex false };
  lock = λ mutex m. record m { owned = update m.owned mutex true };
  try_lock = λ mutex m.
      if m.owned mutex
      then stop aborted
      else ok (true, record m { owned = update m.owned mutex true });
  unlock = λ mutex m. record m { owned = update m.owned mutex false };
  held = λ m mutex. m.owned mutex;
  has_waiters = λ m mutex. m.waited mutex;
  lock_lem = λ mutex m. update_self m.owned mutex true;
  unlock_lem = λ mutex m. update_self m.owned mutex false;
}

-- The lock at 100 is live, the one at 200 is invalidated and has a waiter.
abbrev locks : Locks Simple
locks = record {
  live = λ lock. lock == 100;
  invalidated = λ lock. lock == 200;
  mutex = λ lock. if lock == 100 then 1 else 2;
  mutexes = record { next = 3; owned = λ mutex. false; waited = λ mutex. mutex == 2 };
}

-- Another thread invalidates the lock at 100, or lets the waiter of the other one go at turn 1.
abbrev invalidates : Locks Simple → Locks Simple
invalidates s = invalidate simple 100 s

abbrev leaves : ℕ → Locks Simple → Locks Simple
leaves i s =
    if i == 1
    then record s {
      mutexes = record { next = s.mutexes.next; owned = s.mutexes.owned; waited = λ mutex. false };
    }
    else s

abbrev same : Locks Simple → Locks Simple
same s = s

lock-acquired : (lock simple same 100 false locks).0 ≡ acquired
unfolding lock
lock-acquired = refl

lock-invalidated : (lock simple invalidates 100 false locks).0 ≡ invalid
unfolding lock
lock-invalidated = refl

held-lock : held simple 100 (unlock simple 100 (lock simple same 100 false locks).1) ≡ ok false
unfolding lock unlock held
held-lock = refl

try_lock-lock : try_lock simple 100 (lock simple same 100 false locks).1 ≡ stop aborted
unfolding lock try_lock
try_lock-lock = refl

lck_ticket_lock-invalidated_example :
    (lck_ticket_lock simple same same 200 locks ≡ locks)
    × (lck_ticket_assert_owned simple same same 200 (lck_ticket_lock simple same same 200 locks)
        ≡ stop aborted)
    × (hw_lck_ticket_reserve_allow_invalid simple same same 200 locks ≡ ok (contended, locks))
    × (hw_lck_ticket_wait simple same same 200 locks ≡ (acquired, locks))
lck_ticket_lock-invalidated_example =
    lck_ticket_lock-invalidated simple same same 200 locks refl refl

locks-IsSplit : IsSplit locks
locks-IsSplit a l = ground arith

destroyed :
    (outcome : Outcome (Locks Simple)) × (destroy simple leaves 5 200 true locks ≡ some outcome)
unfolding destroy yield_to_waiters
destroyed = (_, refl)

busy :
    (j : ℕ)
    → j < 2
    → has_waiters simple
        (after_turns simple leaves j 0 (record locks { live = update locks.live 200 false }))
        200
      ≡ true
busy zero h = refl
busy (suc zero) h = refl
busy (suc (suc j)) h = absurd (omega arith)

destroy-end_example :
    let quiet =
      after_turns simple leaves 2 0 (record locks { live = update locks.live 200 false }) in
    destroy simple leaves 5 200 true locks
    ≡ some (
        ok (record quiet {
          invalidated = update quiet.invalidated 200 false;
          mutexes = simple.free (quiet.mutex 200) quiet.mutexes;
        }))
destroy-end_example = destroy-end simple leaves 2 5 200 locks refl refl (omega arith) busy refl

lock-status_example :
    let (status, after) = lock simple invalidates 100 true locks in
    ((false ≡ true) × (status ≡ invalid) × (after ≡ locks))
    ⊎ ((false ≡ false) × (true ≡ false) × (status ≡ invalid) × (after ≡ locks))
    ⊎ ((false ≡ false)
        × (true ≡ true)
        × (true ≡ false)
        × (status ≡ acquired)
        × (after.mutexes.owned 1 ≡ true))
    ⊎ ((false ≡ false)
        × (true ≡ true)
        × (true ≡ true)
        × (status ≡ invalid)
        × (after.mutexes.owned 1 ≡ false))
lock-status_example = lock-status simple invalidates 100 true locks

-- The wrappers: a lock that is made locked is held, and free for others once it is unlocked.
made_locked : held simple 300 (hw_lck_ticket_init_locked simple same same 300 locks) ≡ ok true
unfolding hw_lck_ticket_init_locked allocate lock held
made_locked = refl

unlocked_again :
    held simple 300 (
      lck_ticket_unlock simple same same 300 (hw_lck_ticket_init_locked simple same same 300 locks))
    ≡ ok false
unfolding hw_lck_ticket_init_locked lck_ticket_unlock unlock allocate lock held
unlocked_again = refl

not_allowed :
    ((hw_lck_ticket_lock_allow_invalid simple same same 200 locks).0 ≡ invalid)
    × ((hw_lck_ticket_lock_to simple same same 200 locks).0 ≡ acquired)
unfolding hw_lck_ticket_lock_allow_invalid hw_lck_ticket_lock_to lock
not_allowed = (refl, refl)

tried : (s : Locks Simple) × (hw_lck_ticket_lock_try simple same same 100 locks ≡ ok (true, s))
unfolding hw_lck_ticket_lock_try try_lock
tried = (_, refl)

gone :
    (s : Locks Simple) × (lck_ticket_destroy simple same same 100 locks ≡ some (ok s))
    × (is_valid simple s 100 ≡ false)
    × (s.mutex 100 ≡ 0)
unfolding lck_ticket_destroy destroy
gone = (_, refl, refl, refl)
