-- ===== src/Sync/Pointer.antt =====
-- VirtualLckPtr and the hw_lck_ptr_ functions of fuzz/xnu/osfmk/fakes/sync/locks.cc: a pointer that a
-- mutex protects.
pub mod Laws
use sock_fuzzer.Common.{
  ℕ, zero, suc, ◌+◌, Bool, true, false, not, Option, none, some, Outcome, ok, stop, aborted,
  if◌then◌else◌, ◌>>=◌, ◌==◌,
}

-- The protected value, whether the mutex has an owner, and whether that is the current thread.
pub record VirtualLckPtr : Type 0 where
  pub protected_value : ℕ
  pub owned : Bool
  pub mine : Bool

-- The mutex's Unlock aborts unless the caller owns it.
abbrev pub unlock_exclusive : VirtualLckPtr → Outcome VirtualLckPtr
unlock_exclusive p = if p.mine then ok (record p { owned = false; mine = false }) else stop aborted

-- `world` is what others do until the mutex is free and this thread gets it.
abbrev pub lock_exclusive : (world : VirtualLckPtr → VirtualLckPtr) → VirtualLckPtr → VirtualLckPtr
lock_exclusive world p = record (world p) { owned = true; mine = true }

-- A hw_lck_ptr_t that has not been initialised, or has been destroyed, has no VirtualLckPtr.
abbrev pub present : Option VirtualLckPtr → Outcome VirtualLckPtr
present none = stop aborted
present (some p) = ok p

unfoldable pub hw_lck_ptr_init : (value : ℕ) → Option VirtualLckPtr
hw_lck_ptr_init value = some (record { protected_value = value; owned = false; mine = false })

unfoldable pub hw_lck_ptr_destroy : Option VirtualLckPtr → Option VirtualLckPtr
hw_lck_ptr_destroy lck = none

unfoldable pub hw_lck_ptr_value : Option VirtualLckPtr → Outcome ℕ
hw_lck_ptr_value lck = present lck >>= λ p. ok p.protected_value

unfoldable pub hw_lck_ptr_held : Option VirtualLckPtr → Outcome Bool
hw_lck_ptr_held lck = present lck >>= λ p. ok p.owned

unfoldable pub hw_lck_ptr_lock :
    (world : VirtualLckPtr → VirtualLckPtr)
    → Option VirtualLckPtr
    → Outcome (ℕ × Option VirtualLckPtr)
hw_lck_ptr_lock world lck = present lck >>= λ p.
    let locked = lock_exclusive world p in ok (locked.protected_value, some locked)

unfoldable pub hw_lck_ptr_unlock :
    (value : ℕ) → Option VirtualLckPtr → Outcome (Option VirtualLckPtr)
hw_lck_ptr_unlock value lck = present lck >>= λ p.
    unlock_exclusive (record p { protected_value = value }) >>= λ p'. ok (some p')

module _ (world : ℕ → VirtualLckPtr → VirtualLckPtr) where
  -- The loop runs for at most `turns` turns, of which the next is number `i`, and gives none if the
  -- value is still another one by then. The world of a turn covers the yield and the wait for the mutex.
  unfoldable pub wait_for_value :
      (turns i value : ℕ) → VirtualLckPtr → Option (Outcome VirtualLckPtr)
  wait_for_value zero i value p = if p.protected_value == value then some (ok p) else none
  wait_for_value (suc turns) i value p =
      let rest =
        wait_for_value turns (i + 1) value
          (lock_exclusive (world i) (record p { owned = false; mine = false })) in
      if p.protected_value == value
      then some (ok p)
      else if p.mine
      then rest
      else some (stop aborted)

  unfoldable pub hw_lck_ptr_wait_for_value :
      (turns value : ℕ) → Option VirtualLckPtr → Option (Outcome (Option VirtualLckPtr))
  hw_lck_ptr_wait_for_value turns value none = some (stop aborted)
  hw_lck_ptr_wait_for_value turns value (some p) = elim (wait_for_value turns 0 value p) [
    | none ↦ none
    | some r ↦ some (r >>= λ p'. ok (some p'))
  ]
