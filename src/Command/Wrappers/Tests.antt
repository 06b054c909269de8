-- ===== src/Command/Wrappers/Tests.antt =====
-- A mach_msg2 and a port notification, through their wrappers.
use sock_fuzzer.Common.{none, some, [], ◌∷◌, ◌≡◌, refl, arith}
use sock_fuzzer.Message.{numbered, case_negative, get_mach_port}
use sock_fuzzer.Command.{
  number, bytes, answer, mach_port_request_notification_trap, mach_vm_protect_trap,
}
use sock_fuzzer.Command.Traps.{Msg2Fields, handle_mach_msg2}
use sock_fuzzer.Command.Wrappers.{
  trap_args, target, name, msgid, sync, notify, notify_poly, previous,
}
use sock_fuzzer.Command.Wrappers.Unpacking.{unpack_action, handle_mach_msg2-unpack}

abbrev fields : Msg2Fields
fields = record {
  message = some (1 ∷ 2 ∷ 3 ∷ []);
  options = 1 ∷ [];
  options_upper_bits = 2 ∷ [];
  sent_bits = 5395;
  remote_port = numbered 7;
  local_port = case_negative;
  voucher_port = numbered 9;
  msgh_id = 300;
  desc_count = 2;
  rcv_name = numbered 4;
  rcv_size = 128;
  priority = 31;
  timeout = 10;
}

handle_mach_msg2-unpack_example :
    unpack_action (handle_mach_msg2 fields)
    ≡ some (record {
      message = bytes (1 ∷ 2 ∷ 3 ∷ []);
      msgh_bits = 5395;
      send_size = 3;
      remote_port = 7;
      local_port = 4294967295;
      voucher_port = 9;
      msgh_id = 300;
      desc_count = 2;
      rcv_name = 4;
      rcv_size = 128;
      priority = 31;
      timeout_word = 10;
    })
unfolding get_mach_port
handle_mach_msg2-unpack_example = handle_mach_msg2-unpack fields (omega arith)

notification_args_run :
    trap_args mach_port_request_notification_trap
      (number 3 ∷ number 7 ∷ number 69 ∷ number 1 ∷ number 9 ∷ number 21 ∷ answer ∷ [])
    ≡ some (
        (target, number 3)
        ∷ (name, number 7)
        ∷ (msgid, number 69)
        ∷ (sync, number 1)
        ∷ (notify, number 9)
        ∷ (notify_poly, number 21)
        ∷ (previous, answer)
        ∷ [])
unfolding trap_args
notification_args_run = refl

too_few : trap_args mach_vm_protect_trap (number 3 ∷ []) ≡ none
unfolding trap_args
too_few = refl
