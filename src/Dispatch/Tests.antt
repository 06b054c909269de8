-- ===== src/Dispatch/Tests.antt =====
-- A table of 500 system calls with two arguments each, and a table of Mach traps with one.
use sock_fuzzer.Common.{◌≡◌, refl, false}
use sock_fuzzer.Dispatch.{banned_syscalls, is_one_of}

write_allowed : is_one_of 4 banned_syscalls ≡ false
unfolding is_one_of
write_allowed = refl
