-- ===== src/Command/Tests.antt =====
-- A test case of four commands.
use sock_fuzzer.Common.{ℕ, Bool, true, false, none, List, [], ◌∷◌, ◌≡◌, refl, ◌+◌}
use sock_fuzzer.Message.{numbered, case_negative, get_mach_port}
use sock_fuzzer.Command.{
  Function, number, bytes, answer, ioctl, connectx, mach_msg2_trap, invoke, yield, get_protection,
}
use sock_fuzzer.Command.Traps.{protect, handle_mach_msg2}
use sock_fuzzer.Command.Handler.{
  Command, vm_trap, ioctl_index, ioctl_real, siocsifflags, command_not_set, Outside,
  connect_actions, ioctl_actions, command_actions, until_return, handle_command,
}

abbrev outside : (Function → Bool) → ℕ → Outside
outside comes_back i = record {
  comes_back = comes_back;
  task = 3;
  options_bytes = λ flags limit port. flags ∷ limit ∷ [];
  ioctls = λ index. index + 100;
  siocaifaddr = 1;
  siocsifflags_number = 2;
  new_cid = i + 50;
  no_endpoints = 0 ∷ [];
}

abbrev plain : Function → Bool
plain function = false

-- Calls of ioctl come back through SyscallReturn.
abbrev is_ioctl : Function → Bool
is_ioctl ioctl = true
is_ioctl function = false

abbrev commands : List Command
commands =
    vm_trap (protect case_negative 4096 8192 0 (1 ∷ 2 ∷ []))
    ∷ ioctl_index 4 7
    ∷ command_not_set
    ∷ ioctl_real (siocsifflags 4 (9 ∷ []))
    ∷ []

-- The flags that an ioctl sets are followed by a connection to nowhere.
falls_through :
    (handle_command (outside plain 0) (ioctl_real (siocsifflags 4 (9 ∷ []))) []).0
    ≡ invoke ioctl (number 4 ∷ number 2 ∷ bytes (9 ∷ []) ∷ number 0 ∷ [])
      ∷ invoke connectx (
          number 0
          ∷ bytes (0 ∷ [])
          ∷ number 0
          ∷ number 0
          ∷ number 0
          ∷ number 0
          ∷ answer
          ∷ answer
          ∷ number 0
          ∷ [])
      ∷ yield
      ∷ []
unfolding handle_command until_return command_actions ioctl_actions connect_actions
falls_through = refl

joined : get_protection (1 ∷ 2 ∷ 2 ∷ []) ≡ 3
unfolding get_protection
joined = refl

packed :
    handle_mach_msg2 (record {
      message = none;
      options = 1 ∷ [];
      options_upper_bits = 1 ∷ [];
      sent_bits = 19;
      remote_port = case_negative;
      local_port = numbered 2;
      voucher_port = numbered 0;
      msgh_id = 1;
      desc_count = 0;
      rcv_name = numbered 0;
      rcv_size = 5;
      priority = 0;
      timeout = 6;
    })
    ≡ invoke mach_msg2_trap (
        number 0
        ∷ number 9223372041149743105
        ∷ number 19
        ∷ number 12884901887
        ∷ number 4294967296
        ∷ number 0
        ∷ number 5
        ∷ number 6
        ∷ [])
      ∷ []
unfolding handle_mach_msg2 get_mach_port
packed = refl
