-- ===== src/Command.antt =====
-- CommandHandler of fuzz/handlers/command.cc: what a command of a test case has the kernel do. The
-- cases of the message Command are grouped as the switch has them.
pub mod Traps
pub mod Handler
pub mod Wrappers
mod Moves
pub mod Laws
mod Tests
use Prim.Native.Nat.{bit_or}
use sock_fuzzer.Common.{ℕ, Bool, true, false, List, [], ◌∷◌}
use sock_fuzzer.Message.{Port, get_mach_port}

-- What a call is given: a number, the address of some bytes that the handler owns, or the address of a
-- variable of its own for an answer.
pub data Argument : Type 0 where
  number : ℕ → Argument
  bytes : List ℕ → Argument
  answer : Argument

-- The functions of the kernel's interface that commands call, without their suffix _wrapper and the
-- prefix _kernelrpc_.
pub data Function : Type 0 where
  mach_vm_allocate_trap mach_vm_purgable_control_trap mach_vm_deallocate_trap : Function
  mach_vm_protect_trap mach_vm_map_trap task_dyld_process_info_notify_get_trap : Function
  mach_port_allocate_trap mach_port_deallocate_trap mach_port_mod_refs_trap : Function
  mach_port_move_member_trap mach_port_insert_right_trap mach_port_insert_member_trap : Function
  mach_port_extract_member_trap mach_port_construct_trap mach_port_destruct_trap : Function
  mach_port_request_notification_trap mach_reply_port : Function
  task_self_trap thread_self_trap host_self_trap thread_get_special_reply_port : Function
  mach_msg_trap mach_msg_overwrite_trap mach_msg2_trap : Function
  host_create_mach_voucher_trap mach_voucher_extract_attr_recipe_trap : Function
  mk_timer_create_trap mk_timer_destroy_trap mk_timer_cancel_trap mk_timer_arm_trap : Function
  mk_timer_arm_leeway_trap : Function
  do_random_syscall do_random_mach_trap ioctl do_ip_input connectx disconnectx : Function
  do_necp_client_action necp_session_action kevent do_vm_fault call_bsd_syscall : Function

-- What the handler does: a call of the kernel, or one of the host.
pub data Action : Type 0 where
  invoke : Function → List Argument → Action
  block_copyin unblock_copyin yield : Action

-- Flags of a repeated field, joined by |=.
abbrev pub join_flags : ℕ → List ℕ → ℕ
join_flags joined [] = joined
join_flags joined (flag ∷ flags) = join_flags (bit_or joined flag) flags

unfoldable pub get_protection : List ℕ → ℕ
get_protection prot = join_flags 0 prot

abbrev pub port_name : Port → Argument
port_name p = number (get_mach_port p)
