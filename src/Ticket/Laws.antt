-- ===== src/Ticket/Laws.antt =====
-- On Allocate, Invalidate and Lock of fuzz/host/hw_ticket_lock_manager.cc, and on lck_ticket_lock.
use sock_fuzzer.Common.{
  ℕ, Bool, true, false, ok, stop, aborted, ◌≡◌, ◌↔◌, ◌⊎◌, arith, if◌then◌else◌,
}
use sock_fuzzer.Ticket.{
  Mutexes, Locks, invalid, contended, acquired, allocate, invalidate, lock, held, try_lock,
}
use sock_fuzzer.Ticket.Kernel.{
  lck_ticket_lock, lck_ticket_assert_owned, hw_lck_ticket_lock_try, hw_lck_ticket_lock_to,
  hw_lck_ticket_reserve, hw_lck_ticket_reserve_allow_invalid, hw_lck_ticket_wait,
}

-- No lock is both live and invalidated.
abbrev pub IsSplit : {M : Type 0} → Locks M → Type 0
IsSplit s = (address : ℕ) → s.live address ≡ true → s.invalidated address ≡ false

module _ {M : Type 0} (mx : Mutexes M) where
  -- Locking ends in one of four ways. An invalidated lock is left as it is, with HW_LOCK_INVALID where
  -- that is allowed and HW_LOCK_ACQUIRED where it is not; a lock that is not known is left as it is,
  -- with HW_LOCK_INVALID; a live lock is held, with HW_LOCK_ACQUIRED, if nobody invalidates it while
  -- the caller waits; and it is not held, with HW_LOCK_INVALID, if somebody does.
  pub lock-status :
      (world : Locks M → Locks M) (address : ℕ) (allow_invalid : Bool) (s : Locks M)
      → let (status, after) = lock mx world address allow_invalid s in
        ((s.invalidated address ≡ true)
          × (status ≡ (if allow_invalid then invalid else acquired))
          × (after ≡ s))
        ⊎ ((s.invalidated address ≡ false)
            × (s.live address ≡ false)
            × (status ≡ invalid)
            × (after ≡ s))
        ⊎ ((s.invalidated address ≡ false)
            × (s.live address ≡ true)
            × ((world s).invalidated address ≡ false)
            × (status ≡ acquired)
            × (mx.held after.mutexes (s.mutex address) ≡ true))
        ⊎ ((s.invalidated address ≡ false)
            × (s.live address ≡ true)
            × ((world s).invalidated address ≡ true)
            × (status ≡ invalid)
            × (mx.held after.mutexes ((world s).mutex address) ≡ false))
  unfolding lock
  lock-status world address allow_invalid s =
      let there = world s in
      let m = mx.lock (s.mutex address) there.mutexes in
      let took = mx.lock_lem (s.mutex address) there.mutexes in
      let left = mx.unlock_lem (there.mutex address) m in ground (arith, took, left)

  -- Taking a ticket lock that is live and not invalidated after the yield, and still so after the
  -- wait, with the same mutex, makes its owner assertion pass.
  pub lck_ticket_assert_owned-lck_ticket_lock :
      (yields blocks : Locks M → Locks M) (tlock : ℕ) (s : Locks M)
      → let before = yields s in
        before.live tlock ≡ true
        → before.invalidated tlock ≡ false
        → (blocks before).live tlock ≡ true
        → (blocks before).invalidated tlock ≡ false
        → (blocks before).mutex tlock ≡ before.mutex tlock
        → let after = lck_ticket_lock mx yields blocks tlock s in
          lck_ticket_assert_owned mx yields blocks tlock after ≡ ok after
  unfolding lck_ticket_lock lck_ticket_assert_owned held lock
  lck_ticket_assert_owned-lck_ticket_lock yields blocks tlock s a b c d e =
      let before = yields s in
      let took = mx.lock_lem (before.mutex tlock) (blocks before).mutexes in ground (arith, took)

  -- Where a ticket lock is invalidated and not live after the yield, taking it returns like taking any other, with
  -- nothing changed, and its owner assertion then aborts; reserving it answers HW_LOCK_CONTENDED, also where an
  -- invalid lock is allowed, with nothing changed either, and waiting after that answers
  -- HW_LOCK_ACQUIRED, with nothing changed but by the yield.
  pub lck_ticket_lock-invalidated :
      (yields blocks : Locks M → Locks M) (tlock : ℕ) (s : Locks M)
      → (yields s).live tlock ≡ false
      → (yields s).invalidated tlock ≡ true
      → let after = lck_ticket_lock mx yields blocks tlock s in
        (after ≡ yields s)
        × (lck_ticket_assert_owned mx yields blocks tlock after ≡ stop aborted)
        × (hw_lck_ticket_reserve_allow_invalid mx yields blocks tlock s ≡ ok (contended, yields s))
        × (hw_lck_ticket_wait mx yields blocks tlock (yields s) ≡ (acquired, yields (yields s)))
  unfolding lck_ticket_lock lck_ticket_assert_owned held lock try_lock hw_lck_ticket_lock_try
      hw_lck_ticket_reserve hw_lck_ticket_reserve_allow_invalid hw_lck_ticket_lock_to
      hw_lck_ticket_wait
  lck_ticket_lock-invalidated yields blocks tlock s a b =
      (ground arith, ground arith, ground arith, ground arith)

  -- Where no lock is both live and invalidated, invalidating one keeps it so. Allocating one keeps it so
  -- exactly if that lock is not an invalidated one, and asking whether it is held aborts exactly if
  -- it is: the manager does not take it out of the invalidated locks.
  pub allocate-IsSplit :
      (address : ℕ) (s : Locks M)
      → IsSplit s
      → IsSplit (invalidate mx address s)
        × (IsSplit (allocate mx address s) ↔ (s.invalidated address ≡ false))
        × ((held mx address (allocate mx address s) ≡ stop aborted)
            ↔ (s.invalidated address ≡ true))
  unfolding allocate held
  allocate-IsSplit address s split = (
    λ a l. ground (arith, split a),
    (λ after. ground (arith, after address), λ fresh a l. ground (arith, split a)),
    (λ e. ground arith, λ stale. ground arith),
  )
