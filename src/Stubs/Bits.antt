-- ===== src/Stubs/Bits.antt =====
-- fls of fuzz/xnu/bsd/fakes/stubs.c and flsll of fuzz/xnu/osfmk/fakes/osfmk_stubs.c.
use sock_fuzzer.Common.{ℕ, zero, suc, leb, if◌then◌else◌, ◌==◌, ◌-◌, ◌*◌, ◌^◌}

-- The leading zeros of a word of some bits, as the compiler's __builtin_clz counts them.
unfoldable pub clz : (bits word : ℕ) → ℕ
clz zero word = 0
clz (suc n) word = let rest = clz n word in if leb (2 ^ n) word then 0 else suc rest

-- `bytes` is sizeof(mask).
unfoldable pub last_set : (bytes mask : ℕ) → ℕ
last_set bytes mask = if mask == 0 then 0 else bytes * 8 - clz (bytes * 8) mask

abbrev pub fls : (mask : ℕ) → ℕ
fls mask = last_set 4 mask

abbrev pub flsll : (mask : ℕ) → ℕ
flsll mask = last_set 8 mask
