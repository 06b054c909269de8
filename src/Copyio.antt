-- ===== src/Copyio.antt =====
-- copyin, copyinstr and copyout of fuzz/xnu/osfmk/fakes/copyio.c. User memory is a function from
-- addresses to bytes; what the fuzzer has is a record.
pub mod Laws
mod Tests
use sock_fuzzer.Common.{
  ℕ, zero, suc, ◌+◌, ◌-◌, Bool, true, false, not, ◌&&◌, ◌||◌, Option, none, some, List, [], ◌∷◌,
  if◌then◌else◌, ◌==◌, set, update,
}

-- GetRemainingFuzzedBytes, the next answer of GetFuzzedBool, the bytes that GetFuzzedBytes stores
-- where so many are asked for, and IsCopyioBlocked.
pub record Fuzzer : Type 0 where
  pub remaining : ℕ
  pub chance : Bool
  pub fuzzed : ℕ → List ℕ
  pub blocked : Bool

abbrev pub read_bytes : (memory : ℕ → ℕ) → (addr len : ℕ) → List ℕ
read_bytes memory addr zero = []
read_bytes memory addr (suc n) = memory addr ∷ read_bytes memory (addr + 1) n

abbrev pub write_bytes : (memory : ℕ → ℕ) → (addr : ℕ) → List ℕ → ℕ → ℕ
write_bytes memory addr [] = memory
write_bytes memory addr (x ∷ xs) = write_bytes (update memory addr x) (addr + 1) xs

-- The bytes that reach the kernel, none for the result -1.
unfoldable pub copyin : Fuzzer → (memory : ℕ → ℕ) → (uaddr len : ℕ) → Option (List ℕ)
copyin f memory uaddr len =
    if not f.blocked && not (uaddr == 1)
    then some (read_bytes memory uaddr len)
    else if (f.remaining == 0) || f.chance
    then none
    else some (f.fuzzed len)

unfoldable pub copyinstr : Fuzzer → (user_addr max : ℕ) → Option (List ℕ)
copyinstr f user_addr max =
    if (f.remaining == 0) || f.chance
    then none
    else some (if max == 0 then f.fuzzed max else set (f.fuzzed max) (max - 1) 0)

-- The user memory afterwards, none for the result 1. The copy into a buffer that is freed at once,
-- which only lets a sanitizer see the bytes, is left out.
unfoldable pub copyout :
    Fuzzer → (memory : ℕ → ℕ) → (bytes : List ℕ) → (udaddr : ℕ) → Option (ℕ → ℕ)
copyout f memory bytes udaddr =
    if f.chance
    then none
    else if (udaddr == 0) || (udaddr == 1) || f.blocked
    then some memory
    else some (write_bytes memory udaddr bytes)

unfoldable pub copyin_atomic32 : Fuzzer → (memory : ℕ → ℕ) → (user_addr : ℕ) → Option (List ℕ)
unfolding copyin
copyin_atomic32 f memory user_addr = copyin f memory user_addr 4

unfoldable pub copyin_atomic64 : Fuzzer → (memory : ℕ → ℕ) → (user_addr : ℕ) → Option (List ℕ)
unfolding copyin
copyin_atomic64 f memory user_addr = copyin f memory user_addr 8
