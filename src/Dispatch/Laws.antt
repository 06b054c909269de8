-- ===== src/Dispatch/Laws.antt =====
-- On XNUDoRandomSyscall and DoRandomMachTrap: which entry of a table is called, and with what.
use native.Mathlib.Nat.{mod-lt}
use sock_fuzzer.Common.{
  ℕ, ◌*◌, ◌%◌, ◌≤◌, ◌<◌, ◌≡◌, refl, Bool, true, false, Option, none, some, List, [], ◌∷◌,
  if◌then◌else◌, replicate, length, get_elem?,
}
use sock_fuzzer.Dispatch.{
  DispatchCall, block_copyin, unblock_copyin, entry_call, do_random_mach_trap,
}

-- Whether copyin is blocked after the calls, none if it is blocked twice, or an entry of the table is
-- called while it is not blocked.
unfoldable pub copyin_run : Bool → List DispatchCall → Option Bool
copyin_run b [] = some b
copyin_run b (block_copyin ∷ cs) = if b then none else copyin_run true cs
copyin_run b (unblock_copyin ∷ cs) = if b then copyin_run false cs else none
copyin_run b (entry_call n args ∷ cs) = if b then copyin_run b cs else none
copyin_run b (c ∷ cs) = copyin_run b cs

unfoldable pub entry_calls : List DispatchCall → List (ℕ × List ℕ)
entry_calls [] = []
entry_calls (entry_call n args ∷ cs) = (n, args) ∷ entry_calls cs
entry_calls (c ∷ cs) = entry_calls cs

-- The arguments are as long as the entry wants; they begin with the data and go on with zeros.
pub record Marshalled (arg_count : ℕ → ℕ) (bytes : List ℕ) (size : ℕ) (call : ℕ × List ℕ)
    : Type 0 where
  pub total : length call.1 ≡ arg_count call.0 * 8
  pub copied :
      (i : ℕ) → i < size → i < arg_count call.0 * 8 → get_elem? call.1 i ≡ get_elem? bytes i
  pub zeros : (i : ℕ) → size ≤ i → i < arg_count call.0 * 8 → get_elem? call.1 i ≡ some 0

-- A random Mach trap calls an entry of the table, with copyin blocked, whose arguments are zeros. The
-- data have no influence.
pub do_random_mach_trap-zeros :
    (mach_trap_count : ℕ) (arg_count : ℕ → ℕ) (number : ℕ) (bytes bytes' : List ℕ) (size size' : ℕ)
    → 0 < mach_trap_count
    → let cs = do_random_mach_trap mach_trap_count arg_count true number bytes size in
      (cs ≡ do_random_mach_trap mach_trap_count arg_count true number bytes' size')
      × (copyin_run false cs ≡ some false)
      × (n : ℕ) × (n < mach_trap_count)
      × (entry_calls cs ≡ (n, replicate (arg_count n * 8) 0) ∷ [])
unfolding do_random_mach_trap copyin_run entry_calls
do_random_mach_trap-zeros mach_trap_count arg_count number bytes bytes' size size' pos =
    (refl, refl, number % mach_trap_count, mod-lt number pos, refl)
