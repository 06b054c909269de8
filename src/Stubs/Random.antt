-- ===== src/Stubs/Random.antt =====
-- GetFuzzedBytes and the other readers of fuzz/host/hypercall/hypercall.cc, and crypto_random_uniform of
-- fuzz/xnu/bsd/fakes/stubs.c.
use sock_fuzzer.Common.{
  ℕ, Bool, false, Option, none, some, List, length, replicate, leb, if◌then◌else◌, ◌==◌, ◌≤◌, ◌+◌,
  ◌-◌, ◌%◌, ◌^◌,
}
use sock_fuzzer.Message.{overwrite}
use sock_fuzzer.Stubs.Bits.{clz}

-- What the FuzzedDataProvider of libFuzzer answers next: at most as many bytes as are asked for, a
-- number in a range that is not empty, and a Boolean.
pub record Provider : Type 0 where
  pub consume_bytes : (count : ℕ) → List ℕ
  pub consume_bytes_lem : (count : ℕ) → length (consume_bytes count) ≤ count
  pub in_range : (low high : ℕ) → ℕ
  pub in_range_lem :
      (low high : ℕ) → low ≤ high → (low ≤ in_range low high) × (in_range low high ≤ high)
  pub consume_bool : Bool

-- The memory at the address, none being a provider that is not set.
unfoldable pub get_fuzzed_bytes : Option Provider → (bytes : ℕ) → List ℕ
get_fuzzed_bytes none bytes = replicate bytes 0
get_fuzzed_bytes (some p) bytes = overwrite (p.consume_bytes bytes) (replicate bytes 0)

abbrev pub get_fuzzed_bool : Option Provider → Bool
get_fuzzed_bool none = false
get_fuzzed_bool (some p) = p.consume_bool

abbrev pub get_fuzzed_uint32_in_range : Provider → (low high : ℕ) → ℕ
get_fuzzed_uint32_in_range p low high = p.in_range low high

-- ConsumeIntegral takes a value of the whole range of its type.
abbrev pub get_fuzzed_uint64 : Provider → ℕ
get_fuzzed_uint64 p = p.in_range 0 (2 ^ 64 - 1)

-- `undefined` is what __builtin_clzll answers for 0.
module _ (undefined : ℕ) where
  abbrev pub bits_of : (word : ℕ) → ℕ
  bits_of word = if word == 0 then (2 ^ 64 + 64 - undefined % 2 ^ 64) % 2 ^ 64 else 64 - clz 64 word

  unfoldable pub crypto_random_uniform : Provider → (bound : ℕ) → ℕ
  crypto_random_uniform p bound =
      if bound == 0
      then 0
      else if leb (bits_of (bound - 1)) 32
      then get_fuzzed_uint32_in_range p 0 ((bound - 1) % 2 ^ 32)
      else get_fuzzed_uint64 p % bound
