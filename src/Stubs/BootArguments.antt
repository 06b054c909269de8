-- ===== src/Stubs/BootArguments.antt =====
-- PE_parse_boot_argn of fuzz/xnu/bsd/fakes/fake_impls.c.
use Prim.Native.String.{String}
use text.Mathlib.Text.{◌==◌}
use sock_fuzzer.Common.{ℕ, Bool, false, Option, none, some, if◌then◌else◌}

-- What is written through arg_ptr: a bool or a word of 32 bits.
pub data BootArg : Type 0 where
  bool_arg : Bool → BootArg
  uint32_arg : ℕ → BootArg

unfoldable pub pe_parse_boot_argn : String → Option BootArg
pe_parse_boot_argn arg_string =
    if arg_string == "ifa_debug"
    then some (bool_arg false)
    else if arg_string == "inaddr_nhash"
    then some (uint32_arg 0)
    else if arg_string == "mcache_flags"
    then some (uint32_arg 0)
    else if arg_string == "mbuf_debug"
    then some (uint32_arg 0)
    else if arg_string == "mleak_sample_factor"
    then some (uint32_arg 0)
    else none
