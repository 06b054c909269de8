-- ===== src/Ticket.antt =====
-- HwTicketLockManager of fuzz/host/hw_ticket_lock_manager.cc. The virtual mutexes that its locks point
-- at are an interface, and what other threads do while one blocks or yields is an argument. The lines
-- that only log are left out.
pub mod Kernel
pub mod Laws
pub mod Destruction
mod Tests
use sock_fuzzer.Common.{
  ℕ, zero, suc, ◌+◌, Bool, true, false, not, ◌&&◌, Option, none, some, Outcome, ok, stop, aborted,
  if◌then◌else◌, ◌≡◌, update,
}

-- The virtual mutexes, over their own state M. `lock` is the last step of Lock, once nobody owns the
-- mutex, and `held` whether the current thread owns it. Unlocking a mutex that is not held is an
-- abort, which the manager avoids.
pub record Mutexes (M : Type 0) : Type 0 where
  pub allocate : M → ℕ × M
  pub free : ℕ → M → M
  pub lock : ℕ → M → M
  pub try_lock : ℕ → M → Outcome (Bool × M)
  pub unlock : ℕ → M → M
  pub held : M → ℕ → Bool
  pub has_waiters : M → ℕ → Bool
  pub lock_lem : (mutex : ℕ) (m : M) → held (lock mutex m) mutex ≡ true
  pub unlock_lem : (mutex : ℕ) (m : M) → held (unlock mutex m) mutex ≡ false

-- A lock is the address of a pointer to its mutex.
pub record Locks (M : Type 0) : Type 0 where
  pub live : ℕ → Bool
  pub invalidated : ℕ → Bool
  pub mutex : ℕ → ℕ
  pub mutexes : M

-- hw_lock_status_t.
pub data HwLockStatus : Type 0 where
  invalid contended acquired : HwLockStatus

module _ {M : Type 0} (mx : Mutexes M) where
  unfoldable pub allocate : (lock : ℕ) → Locks M → Locks M
  allocate lock s =
      let (new, m) = mx.allocate s.mutexes in
      record s { live = update s.live lock true; mutex = update s.mutex lock new; mutexes = m }

  abbrev pub invalidate : (lock : ℕ) → Locks M → Locks M
  invalidate lock s = record s {
    live = update s.live lock false;
    invalidated = update s.invalidated lock true;
  }

  abbrev pub is_valid : Locks M → (lock : ℕ) → Bool
  is_valid s lock = s.live lock

  abbrev pub has_waiters : Locks M → (lock : ℕ) → Bool
  has_waiters s lock = mx.has_waiters s.mutexes (s.mutex lock)

  abbrev pub unlock_mutex : (lock : ℕ) → Locks M → Locks M
  unlock_mutex lock s = record s { mutexes = mx.unlock (s.mutex lock) s.mutexes }

  unfoldable pub try_lock : (lock : ℕ) → Locks M → Outcome (Bool × Locks M)
  try_lock lock s = elim (s.live lock) [
    | false ↦ ok (false, s)
    | true ↦ elim (mx.try_lock (s.mutex lock) s.mutexes) [
      | stop reason ↦ stop reason
      | ok r ↦ ok (r.0, record s { mutexes = r.1 })
    ]
  ]

  unfoldable pub unlock : (lock : ℕ) → Locks M → Locks M
  unlock lock s =
      if not (s.live lock) && not (s.invalidated lock)
      then s
      else if not (mx.held s.mutexes (s.mutex lock))
      then s
      else unlock_mutex lock s

  unfoldable pub held : (lock : ℕ) → Locks M → Outcome Bool
  held lock s =
      if not (s.live lock)
      then ok false
      else if s.invalidated lock
      then stop aborted
      else ok (mx.held s.mutexes (s.mutex lock))

  -- `world` is what the other threads do until a turn of this one: while Lock blocks, or in a yield.
  unfoldable pub lock :
      (world : Locks M → Locks M)
      → (address : ℕ) → (allow_invalid : Bool) → Locks M
      → HwLockStatus × Locks M
  lock world address allow_invalid s =
      let there = world s in
      let taken : Locks M = record there { mutexes = mx.lock (s.mutex address) there.mutexes } in
      if s.invalidated address
      then (if allow_invalid then invalid else acquired, s)
      else if not (s.live address)
      then (invalid, s)
      else if taken.invalidated address
      then (invalid, unlock_mutex address taken)
      else (acquired, taken)

  -- The end of Destroy. `*lock` keeps its value, which points at a freed mutex.
  abbrev pub release : (lock : ℕ) → Locks M → Locks M
  release lock s = record s {
    invalidated = update s.invalidated lock false;
    mutexes = mx.free (s.mutex lock) s.mutexes;
  }

  module _ (world : ℕ → Locks M → Locks M) where
    -- The loop yields until there are no waiters, for at most `turns` turns, of which the next is
    -- number `i`, and gives none if there are waiters still.
    unfoldable pub yield_to_waiters : (turns i lock : ℕ) → Locks M → Option (Locks M)
    yield_to_waiters zero i lock s = if has_waiters s lock then none else some s
    yield_to_waiters (suc turns) i lock s =
        let rest = yield_to_waiters turns (i + 1) lock (world i s) in
        if has_waiters s lock then rest else some s

    unfoldable pub wakeup_waiters : (turns lock : ℕ) → Locks M → Option (Locks M)
    wakeup_waiters turns lock s =
        if not (has_waiters s lock)
        then some s
        else yield_to_waiters turns 0 lock
            (if mx.held s.mutexes (s.mutex lock) then unlock_mutex lock s else s)

    unfoldable pub destroy : (turns lock : ℕ) → (sync : Bool) → Locks M → Option (Outcome (Locks M))
    unfolding wakeup_waiters
    destroy turns lock sync s =
        let dying : Locks M = record s { live = update s.live lock false } in
        if sync && s.invalidated lock
        then elim (wakeup_waiters turns lock dying) [
          | none ↦ none
          | some quiet ↦
              (if has_waiters quiet lock
                then some (stop aborted)
                else some (ok (release lock quiet)))
        ]
        else some (ok (release lock dying))
