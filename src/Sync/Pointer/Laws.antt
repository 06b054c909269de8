-- ===== src/Sync/Pointer/Laws.antt =====
-- On VirtualLckPtr of fuzz/xnu/osfmk/fakes/sync/locks.cc and its wait for a value.
use sock_fuzzer.Common.{
  ℕ, zero, suc, ◌+◌, ◌≤◌, ◌<◌, true, false, Option, some, ok, stop, aborted, ◌≡◌, refl, ap, ◌≢◌,
  arith,
}
use sock_fuzzer.Sync.Pointer.{
  VirtualLckPtr, lock_exclusive, hw_lck_ptr_value, hw_lck_ptr_held, hw_lck_ptr_lock,
  hw_lck_ptr_unlock, wait_for_value, hw_lck_ptr_wait_for_value,
}

-- A pointer that the current thread holds is given back with a new value, which is the value until
-- others change it: taken again while they do not, the lock gives that value and is held.
pub hw_lck_ptr_lock-hw_lck_ptr_unlock :
    (value : ℕ) (p : VirtualLckPtr) (world : VirtualLckPtr → VirtualLckPtr)
    → p.mine ≡ true
    → (world (record { protected_value = value; owned = false; mine = false })).protected_value
      ≡ value
    → (free : Option VirtualLckPtr) × (taken : Option VirtualLckPtr) × (hw_lck_ptr_unlock value
          (some p)
        ≡ ok free)
      × (hw_lck_ptr_value free ≡ ok value)
      × (hw_lck_ptr_held free ≡ ok false)
      × (hw_lck_ptr_lock world free ≡ ok (value, taken))
      × (hw_lck_ptr_held taken ≡ ok true)
unfolding hw_lck_ptr_unlock hw_lck_ptr_value hw_lck_ptr_held hw_lck_ptr_lock
hw_lck_ptr_lock-hw_lck_ptr_unlock value p world mine kept =
    let free : VirtualLckPtr = record { protected_value = value; owned = false; mine = false } in
    (some free, some (lock_exclusive world free), ground arith, refl, refl, ground arith, refl)

module _ (world : ℕ → VirtualLckPtr → VirtualLckPtr) where
  -- The pointer after `n` turns of the loop, of which the first is number `i`.
  abbrev pub after_turns : (n i : ℕ) → VirtualLckPtr → VirtualLckPtr
  after_turns zero i p = p
  after_turns (suc n) i p =
      after_turns n (i + 1) (lock_exclusive (world i) (record p { owned = false; mine = false }))

  after_turns-mine : (n i : ℕ) (p : VirtualLckPtr) → p.mine ≡ true → (after_turns n i p).mine ≡ true
  after_turns-mine zero i p mine = mine
  after_turns-mine (suc n) i p mine =
      after_turns-mine n (i + 1)
        (lock_exclusive (world i) (record p { owned = false; mine = false })) refl

  wait_for_value-end :
      (n turns i value : ℕ) (p : VirtualLckPtr)
      → n ≤ turns
      → p.mine ≡ true
      → ((j : ℕ) → j < n → (after_turns j i p).protected_value ≢ value)
      → (after_turns n i p).protected_value ≡ value
      → wait_for_value world turns i value p ≡ some (ok (after_turns n i p))
  unfolding wait_for_value
  wait_for_value-end zero zero i value p few mine other same = ground arith
  wait_for_value-end zero (suc turns) i value p few mine other same = ground arith
  wait_for_value-end (suc n) zero i value p few mine other same = absurd (omega arith)
  wait_for_value-end (suc n) (suc turns) i value p few mine other same =
      let next = lock_exclusive (world i) (record p { owned = false; mine = false }) in
      let ih =
        wait_for_value-end n turns (i + 1) value next (omega arith) refl
          (λ j h. other (suc j) (omega arith)) same in
      let differs : p.protected_value ≢ value = other zero (omega arith) in ground (arith, ih)

  -- A thread that holds the lock and waits for a value gets on if others set the value in some turn,
  -- and it is given at least as many turns: it then holds the lock, and the value is the one that it
  -- waited for.
  pub hw_lck_ptr_wait_for_value-end :
      (n turns value : ℕ) (p : VirtualLckPtr)
      → n ≤ turns
      → p.mine ≡ true
      → ((j : ℕ) → j < n → (after_turns j 0 p).protected_value ≢ value)
      → (after_turns n 0 p).protected_value ≡ value
      → let there = after_turns n 0 p in
        (hw_lck_ptr_wait_for_value world turns value (some p) ≡ some (ok (some there)))
        × (there.mine ≡ true)
        × (hw_lck_ptr_value (some there) ≡ ok value)
  unfolding hw_lck_ptr_wait_for_value hw_lck_ptr_value
  hw_lck_ptr_wait_for_value-end n turns value p few mine other same =
      let loop = wait_for_value-end n turns 0 value p few mine other same in
      (ground (arith, loop), after_turns-mine n 0 p mine, ap ok same)

  -- A thread that does not hold the lock aborts as soon as it would have to wait.
  pub hw_lck_ptr_wait_for_value-aborts :
      (turns value : ℕ) (p : VirtualLckPtr)
      → p.mine ≡ false
      → p.protected_value ≢ value
      → hw_lck_ptr_wait_for_value world (suc turns) value (some p) ≡ some (stop aborted)
  unfolding hw_lck_ptr_wait_for_value wait_for_value
  hw_lck_ptr_wait_for_value-aborts turns value p unheld differs = ground arith
