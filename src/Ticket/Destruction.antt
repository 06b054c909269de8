-- ===== src/Ticket/Destruction.antt =====
-- On Destroy and WakeupWaiters of fuzz/host/hw_ticket_lock_manager.cc.
use sock_fuzzer.Common.{
  ℕ, zero, suc, ◌+◌, ◌≤◌, ◌<◌, Bool, true, false, ◌&&◌, ◌⊎◌, some, Outcome, ok, ◌≡◌, refl, inl, inr,
  arith, if◌then◌else◌, update, Bool-cases, Option-cases,
}
use sock_fuzzer.Ticket.{
  Mutexes, Locks, has_waiters, unlock_mutex, yield_to_waiters, wakeup_waiters, release, destroy,
}

module _ {M : Type 0} (mx : Mutexes M) (world : ℕ → Locks M → Locks M) where
  -- The locks after `n` turns of the loop, of which the first is number `i`.
  abbrev pub after_turns : (n i : ℕ) → Locks M → Locks M
  after_turns zero i s = s
  after_turns (suc n) i s = after_turns n (i + 1) (world i s)

  -- If the loop ends, then there are no waiters.
  yield_to_waiters-quiet :
      (turns i lock : ℕ) (s quiet : Locks M)
      → yield_to_waiters mx world turns i lock s ≡ some quiet
      → has_waiters mx quiet lock ≡ false
  unfolding yield_to_waiters
  yield_to_waiters-quiet zero i lock s quiet e = ground arith
  yield_to_waiters-quiet (suc turns) i lock s quiet e =
      let ih = yield_to_waiters-quiet turns (i + 1) lock (world i s) quiet in ground (arith, ih)

  wakeup_waiters-quiet :
      (turns lock : ℕ) (s quiet : Locks M)
      → wakeup_waiters mx world turns lock s ≡ some quiet
      → has_waiters mx quiet lock ≡ false
  unfolding wakeup_waiters
  wakeup_waiters-quiet turns lock s quiet e = ground (
    arith,
    yield_to_waiters-quiet turns 0 lock s quiet,
    yield_to_waiters-quiet turns 0 lock (unlock_mutex mx lock s) quiet,
  )

  -- Destroying a lock never aborts. If it ends, then the lock is not invalidated any more and its mutex
  -- has been freed, in a state where the mutex had no waiters, or the lock had not been invalidated, or
  -- the call was not synchronous.
  pub destroy-release :
      (turns lock : ℕ) (sync : Bool) (s : Locks M) (outcome : Outcome (Locks M))
      → destroy mx world turns lock sync s ≡ some outcome
      → (quiet : Locks M) × (outcome ≡ ok (release mx lock quiet))
        × ((release mx lock quiet).invalidated lock ≡ false)
        × ((has_waiters mx quiet lock ≡ false) ⊎ ((sync && s.invalidated lock) ≡ false))
  unfolding destroy
  destroy-release turns lock sync s outcome e =
      let dying : Locks M = record s { live = update s.live lock false } in
      elim (Bool-cases (sync && s.invalidated lock)) [
        | inr plain ↦ (dying, ground arith, ground arith, inr plain)
        | inl both ↦ elim (Option-cases (wakeup_waiters mx world turns lock dying)) [
          | inl stuck ↦ cc
          | inr found ↦
              let quiet = wakeup_waiters-quiet turns lock dying found.0 found.1 in
              (found.0, ground arith, ground arith, inl quiet)
        ]
      ]

  yield_to_waiters-end :
      (n turns i lock : ℕ) (s : Locks M)
      → n ≤ turns
      → ((j : ℕ) → j < n → has_waiters mx (after_turns j i s) lock ≡ true)
      → has_waiters mx (after_turns n i s) lock ≡ false
      → yield_to_waiters mx world turns i lock s ≡ some (after_turns n i s)
  unfolding yield_to_waiters
  yield_to_waiters-end zero zero i lock s few busy quiet = ground arith
  yield_to_waiters-end zero (suc turns) i lock s few busy quiet = ground arith
  yield_to_waiters-end (suc n) zero i lock s few busy quiet = absurd (omega arith)
  yield_to_waiters-end (suc n) (suc turns) i lock s few busy quiet =
      let ih =
        yield_to_waiters-end n turns (i + 1) lock (world i s) (omega arith)
          (λ j h. busy (suc j) (omega arith)) quiet in
      ground (arith, ih, busy zero (omega arith))

  -- A synchronous destruction of an invalidated lock ends if its waiters leave. It first unlocks the mutex if
  -- the caller holds it. If the mutex has waiters then and in the next turns but not after turn `n`, and
  -- `n` turns are given, then after that turn the lock is not invalidated any more, its mutex is freed, and
  -- nothing else changes.
  pub destroy-end :
      (n turns lock : ℕ) (s : Locks M)
      → let dying : Locks M = record s { live = update s.live lock false } in
        let start =
          if mx.held s.mutexes (s.mutex lock) then unlock_mutex mx lock dying else dying in
        s.invalidated lock ≡ true
        → has_waiters mx s lock ≡ true
        → n ≤ turns
        → ((j : ℕ) → j < n → has_waiters mx (after_turns j 0 start) lock ≡ true)
        → has_waiters mx (after_turns n 0 start) lock ≡ false
        → (let quiet = after_turns n 0 start in
            destroy mx world turns lock true s
            ≡ some (
                ok (record quiet {
                  invalidated = update quiet.invalidated lock false;
                  mutexes = mx.free (quiet.mutex lock) quiet.mutexes;
                })))
  unfolding destroy wakeup_waiters
  destroy-end n turns lock s stale waits few busy quiet =
      let dying : Locks M = record s { live = update s.live lock false } in
      let start : Locks M =
        if mx.held s.mutexes (s.mutex lock) then unlock_mutex mx lock dying else dying in
      let loop = yield_to_waiters-end n turns 0 lock start few busy quiet in
      simp (stale, waits, loop, quiet) refl
