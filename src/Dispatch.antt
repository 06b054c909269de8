-- ===== src/Dispatch.antt =====
-- Random system calls and Mach traps: XNUDoRandomSyscall of fuzz/xnu/bsd/api/bsd_backend.c and
-- DoRandomMachTrap of fuzz/xnu/osfmk/api/osfmk_backend.c. The tables of XNU are arguments: how many
-- entries there are, and how many arguments each one takes. Bytes are numbers.
pub mod Laws
mod Tests
use sock_fuzzer.Common.{
  ℕ, zero, suc, ◌+◌, ◌-◌, ◌*◌, ◌%◌, Bool, true, false, ◌||◌, List, [], ◌∷◌, ◌++◌, if◌then◌else◌,
  ltb, ◌==◌, take, replicate,
}

pub data DispatchCall : Type 0 where
  calloc : (size : ℕ) → DispatchCall
  block_copyin unblock_copyin thread_printf free : DispatchCall
  entry_call : (number : ℕ) → (arguments : List ℕ) → DispatchCall

-- NOSYS, EXIT, FORK, PTRACE, POSIX_SPAWN, SEMSYS, SEMGET, LIO_LISTIO and PSELECT.
abbrev pub banned_syscalls : List ℕ
banned_syscalls = 0 ∷ 1 ∷ 2 ∷ 26 ∷ 244 ∷ 251 ∷ 255 ∷ 320 ∷ 394 ∷ []

unfoldable pub is_one_of : ℕ → List ℕ → Bool
is_one_of n [] = false
is_one_of n (x ∷ xs) = (n == x) || is_one_of n xs

-- `if (size > argument_size) size = argument_size`, and memcpy into zeroed memory.
abbrev pub copied_size : (argument_size size : ℕ) → ℕ
copied_size argument_size size = if ltb argument_size size then argument_size else size

abbrev pub copy_into_zeros : (argument_size copied : ℕ) → List ℕ → List ℕ
copy_into_zeros argument_size copied bytes =
    take copied bytes ++ replicate (argument_size - copied) 0

-- `arg_count` is sy_narg, `allocated` whether calloc gives memory.
unfoldable pub do_random_syscall :
    (nsysent : ℕ)
    → (arg_count : ℕ → ℕ) → (allocated : Bool) → (number : ℕ) → (bytes : List ℕ) → (size : ℕ)
    → List DispatchCall
do_random_syscall nsysent arg_count allocated number bytes size =
    let reduced = number % nsysent in
    let argument_size = arg_count reduced * 8 in
    let arguments = copy_into_zeros argument_size (copied_size argument_size size) bytes in
    if is_one_of reduced banned_syscalls
    then []
    else calloc argument_size
      ∷ (if allocated
          then block_copyin
            ∷ thread_printf
            ∷ entry_call reduced arguments
            ∷ thread_printf
            ∷ unblock_copyin
            ∷ free
            ∷ []
          else [])

-- DoRandomMachTrap copies nothing: the trap gets zeros, whatever the data are.
unfoldable pub do_random_mach_trap :
    (mach_trap_count : ℕ)
    → (arg_count : ℕ → ℕ) → (allocated : Bool) → (number : ℕ) → (bytes : List ℕ) → (size : ℕ)
    → List DispatchCall
do_random_mach_trap mach_trap_count arg_count allocated number bytes size =
    let reduced = number % mach_trap_count in
    let argument_size = arg_count reduced * 8 in
    calloc argument_size
    ∷ (if allocated
        then block_copyin
          ∷ entry_call reduced (replicate argument_size 0)
          ∷ unblock_copyin
          ∷ free
          ∷ []
        else [])
