-- ===== src/Ticket/Kernel.antt =====
-- The ticket locks that XNU sees, fuzz/xnu/osfmk/fakes/sync/tlock.cc: each is a hypercall on the
-- manager with a yield before or after it. The reservations of fuzz/xnu/osfmk/fakes/locks.c are made of
-- these.
use sock_fuzzer.Common.{
  ℕ, Bool, true, false, Option, some, Outcome, ok, stop, aborted, if◌then◌else◌, ◌>>=◌, update,
}
use sock_fuzzer.Ticket
use sock_fuzzer.Ticket.{Mutexes, Locks, HwLockStatus, acquired, contended}

-- `yields` is what other threads do in a yield, `blocks` what they do while Lock waits.
module _ {M : Type 0} (mx : Mutexes M) (yields blocks : Locks M → Locks M) where
  unfoldable pub lck_ticket_assert_owned : (tlock : ℕ) → Locks M → Outcome (Locks M)
  lck_ticket_assert_owned tlock s =
      Ticket.held mx tlock s >>= λ owned. if owned then ok s else stop aborted

  -- The status is not looked at.
  unfoldable pub lck_ticket_lock : (tlock : ℕ) → Locks M → Locks M
  lck_ticket_lock tlock s = (Ticket.lock mx blocks tlock false (yields s)).1

  unfoldable pub lck_ticket_unlock : (tlock : ℕ) → Locks M → Locks M
  lck_ticket_unlock tlock s = yields (Ticket.unlock mx tlock s)

  unfoldable pub hw_lck_ticket_init_locked : (tlock : ℕ) → Locks M → Locks M
  hw_lck_ticket_init_locked tlock s =
      (Ticket.lock mx blocks tlock false (Ticket.allocate mx tlock s)).1

  unfoldable pub hw_lck_ticket_lock_allow_invalid : (tlock : ℕ) → Locks M → HwLockStatus × Locks M
  hw_lck_ticket_lock_allow_invalid tlock s =
      let (result, s') = Ticket.lock mx blocks tlock true s in (result, yields s')

  unfoldable pub hw_lck_ticket_lock_to : (tlock : ℕ) → Locks M → HwLockStatus × Locks M
  hw_lck_ticket_lock_to tlock s =
      let (result, s') = Ticket.lock mx blocks tlock false s in (result, yields s')

  unfoldable pub hw_lck_ticket_lock_try : (tlock : ℕ) → Locks M → Outcome (Bool × Locks M)
  hw_lck_ticket_lock_try tlock s = Ticket.try_lock mx tlock (yields s)

  -- Destroys without waking waiters, and clears the pointer.
  unfoldable pub lck_ticket_destroy : (tlock : ℕ) → Locks M → Option (Outcome (Locks M))
  lck_ticket_destroy tlock s = elim (Ticket.destroy mx (λ i s. yields s) 0 tlock false s) [
    | some (ok s') ↦ some (ok (record s' { mutex = update s'.mutex tlock 0 }))
    | other ↦ other
  ]

  -- The ticket, which is set to 0 where the lock is not taken, is left out.
  unfoldable pub hw_lck_ticket_reserve : (tlock : ℕ) → Locks M → Outcome (Bool × Locks M)
  unfolding hw_lck_ticket_lock_try
  hw_lck_ticket_reserve tlock s = hw_lck_ticket_lock_try tlock s

  -- The Boolean as a status: HW_LOCK_ACQUIRED is 1, HW_LOCK_CONTENDED 0.
  unfoldable pub hw_lck_ticket_reserve_allow_invalid :
      (tlock : ℕ) → Locks M → Outcome (HwLockStatus × Locks M)
  unfolding hw_lck_ticket_reserve hw_lck_ticket_lock_try
  hw_lck_ticket_reserve_allow_invalid tlock s = hw_lck_ticket_reserve tlock s >>= λ (got_lock, s').
      ok (if got_lock then acquired else contended, s')

  unfoldable pub hw_lck_ticket_wait : (tlock : ℕ) → Locks M → HwLockStatus × Locks M
  unfolding hw_lck_ticket_lock_to
  hw_lck_ticket_wait tlock s = hw_lck_ticket_lock_to tlock s
