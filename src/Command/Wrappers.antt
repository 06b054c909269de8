-- ===== src/Command/Wrappers.antt =====
-- The wrappers of fuzz/xnu/osfmk/api/osfmk_backend.c that put the arguments of a Mach trap into XNU's structure
-- for them. Numbers have the widths of the C parameters already.
mod Laws
pub mod Unpacking
mod Tests
use sock_fuzzer.Common.{ℕ, List, [], ◌∷◌, Option, none, some}
use sock_fuzzer.Command.{
  Argument, mach_vm_allocate_trap, mach_vm_purgable_control_trap, mach_vm_deallocate_trap,
  mach_vm_protect_trap, mach_vm_map_trap, task_dyld_process_info_notify_get_trap,
  mach_port_allocate_trap, mach_port_deallocate_trap, mach_port_mod_refs_trap,
  mach_port_move_member_trap, mach_port_insert_right_trap, mach_port_insert_member_trap,
  mach_port_extract_member_trap, mach_port_construct_trap, mach_port_destruct_trap,
  mach_port_request_notification_trap, mach_reply_port, task_self_trap, thread_self_trap,
  host_self_trap, thread_get_special_reply_port, mach_msg_overwrite_trap, mach_msg_trap,
  mach_msg2_trap, host_create_mach_voucher_trap, mach_voucher_extract_attr_recipe_trap,
  mk_timer_create_trap, mk_timer_destroy_trap, mk_timer_cancel_trap, mk_timer_arm_trap,
  mk_timer_arm_leeway_trap, Function,
}

-- The fields of XNU's structures, under their names there.
pub data Field : Type 0 where
  target addr address size flags control state names_addr names_count_addr set_maximum : Field
  new_protection mask cur_protection right name delta member after poly polypoly pset : Field
  context srdelta guard msg option send_size rcv_size rcv_name timeout priority rcv_msg : Field
  data_address options_word msgh_bits_and_send_size msgh_remote_and_local_port : Field
  msgh_voucher_and_id desc_count_and_rcv_name rcv_size_and_priority port_options : Field
  host recipes recipes_size voucher voucher_name key recipe recipe_size : Field
  msgid sync notify notify_poly previous : Field
  expire_time result_time mk_timer_flags mk_leeway : Field

-- A structure with the fields that are set; the others are zero.
abbrev pub TrapArgs : Type 0
TrapArgs = List (Field × Argument)

-- One function for each wrapper. The wrappers of mach_msg and mach_msg_overwrite fill the same structure.
abbrev pub mach_msg_trap_wrapper : List Argument → Option TrapArgs
mach_msg_trap_wrapper (a ∷ b ∷ c ∷ d ∷ e ∷ f ∷ g ∷ h ∷ []) = some (
    (msg, a)
    ∷ (option, b)
    ∷ (send_size, c)
    ∷ (rcv_size, d)
    ∷ (rcv_name, e)
    ∷ (timeout, f)
    ∷ (priority, g)
    ∷ (rcv_msg, h)
    ∷ [])
mach_msg_trap_wrapper arguments = none

abbrev pub mach_msg_overwrite_trap_wrapper : List Argument → Option TrapArgs
mach_msg_overwrite_trap_wrapper (a ∷ b ∷ c ∷ d ∷ e ∷ f ∷ g ∷ h ∷ []) = some (
    (msg, a)
    ∷ (option, b)
    ∷ (send_size, c)
    ∷ (rcv_size, d)
    ∷ (rcv_name, e)
    ∷ (timeout, f)
    ∷ (priority, g)
    ∷ (rcv_msg, h)
    ∷ [])
mach_msg_overwrite_trap_wrapper arguments = none

abbrev pub mach_msg2_trap_wrapper : List Argument → Option TrapArgs
mach_msg2_trap_wrapper (a ∷ b ∷ c ∷ d ∷ e ∷ f ∷ g ∷ h ∷ []) = some (
    (data_address, a)
    ∷ (options_word, b)
    ∷ (msgh_bits_and_send_size, c)
    ∷ (msgh_remote_and_local_port, d)
    ∷ (msgh_voucher_and_id, e)
    ∷ (desc_count_and_rcv_name, f)
    ∷ (rcv_size_and_priority, g)
    ∷ (timeout, h)
    ∷ [])
mach_msg2_trap_wrapper arguments = none

abbrev pub mach_port_request_notification_trap_wrapper : List Argument → Option TrapArgs
mach_port_request_notification_trap_wrapper (a ∷ b ∷ c ∷ d ∷ e ∷ f ∷ g ∷ []) = some (
    (target, a)
    ∷ (name, b)
    ∷ (msgid, c)
    ∷ (sync, d)
    ∷ (notify, e)
    ∷ (notify_poly, f)
    ∷ (previous, g)
    ∷ [])
mach_port_request_notification_trap_wrapper arguments = none

abbrev pub mach_vm_allocate_trap_wrapper : List Argument → Option TrapArgs
mach_vm_allocate_trap_wrapper (a ∷ b ∷ c ∷ d ∷ []) =
    some ((target, a) ∷ (addr, b) ∷ (size, c) ∷ (flags, d) ∷ [])
mach_vm_allocate_trap_wrapper _ = none

abbrev pub mach_vm_purgable_control_trap_wrapper : List Argument → Option TrapArgs
mach_vm_purgable_control_trap_wrapper (a ∷ b ∷ c ∷ d ∷ []) =
    some ((target, a) ∷ (address, b) ∷ (control, c) ∷ (state, d) ∷ [])
mach_vm_purgable_control_trap_wrapper _ = none

abbrev pub mach_vm_deallocate_trap_wrapper : List Argument → Option TrapArgs
mach_vm_deallocate_trap_wrapper (a ∷ b ∷ c ∷ []) =
    some ((target, a) ∷ (address, b) ∷ (size, c) ∷ [])
mach_vm_deallocate_trap_wrapper _ = none

abbrev pub task_dyld_process_info_notify_get_trap_wrapper : List Argument → Option TrapArgs
task_dyld_process_info_notify_get_trap_wrapper (a ∷ b ∷ []) =
    some ((names_addr, a) ∷ (names_count_addr, b) ∷ [])
task_dyld_process_info_notify_get_trap_wrapper _ = none

abbrev pub mach_vm_protect_trap_wrapper : List Argument → Option TrapArgs
mach_vm_protect_trap_wrapper (a ∷ b ∷ c ∷ d ∷ e ∷ []) =
    some ((target, a) ∷ (address, b) ∷ (size, c) ∷ (set_maximum, d) ∷ (new_protection, e) ∷ [])
mach_vm_protect_trap_wrapper _ = none

abbrev pub mach_vm_map_trap_wrapper : List Argument → Option TrapArgs
mach_vm_map_trap_wrapper (a ∷ b ∷ c ∷ d ∷ e ∷ f ∷ []) =
    some ((target, a) ∷ (addr, b) ∷ (size, c) ∷ (mask, d) ∷ (flags, e) ∷ (cur_protection, f) ∷ [])
mach_vm_map_trap_wrapper _ = none

abbrev pub mach_port_allocate_trap_wrapper : List Argument → Option TrapArgs
mach_port_allocate_trap_wrapper (a ∷ b ∷ c ∷ []) = some ((target, a) ∷ (right, b) ∷ (name, c) ∷ [])
mach_port_allocate_trap_wrapper _ = none

abbrev pub mach_port_deallocate_trap_wrapper : List Argument → Option TrapArgs
mach_port_deallocate_trap_wrapper (a ∷ b ∷ []) = some ((target, a) ∷ (name, b) ∷ [])
mach_port_deallocate_trap_wrapper _ = none

abbrev pub mach_port_mod_refs_trap_wrapper : List Argument → Option TrapArgs
mach_port_mod_refs_trap_wrapper (a ∷ b ∷ c ∷ d ∷ []) =
    some ((target, a) ∷ (name, b) ∷ (right, c) ∷ (delta, d) ∷ [])
mach_port_mod_refs_trap_wrapper _ = none

abbrev pub mach_port_move_member_trap_wrapper : List Argument → Option TrapArgs
mach_port_move_member_trap_wrapper (a ∷ b ∷ c ∷ []) =
    some ((target, a) ∷ (member, b) ∷ (after, c) ∷ [])
mach_port_move_member_trap_wrapper _ = none

abbrev pub mach_port_insert_right_trap_wrapper : List Argument → Option TrapArgs
mach_port_insert_right_trap_wrapper (a ∷ b ∷ c ∷ d ∷ []) =
    some ((target, a) ∷ (name, b) ∷ (poly, c) ∷ (polypoly, d) ∷ [])
mach_port_insert_right_trap_wrapper _ = none

abbrev pub mach_port_insert_member_trap_wrapper : List Argument → Option TrapArgs
mach_port_insert_member_trap_wrapper (a ∷ b ∷ c ∷ []) =
    some ((target, a) ∷ (name, b) ∷ (pset, c) ∷ [])
mach_port_insert_member_trap_wrapper _ = none

abbrev pub mach_port_extract_member_trap_wrapper : List Argument → Option TrapArgs
mach_port_extract_member_trap_wrapper (a ∷ b ∷ c ∷ []) =
    some ((target, a) ∷ (name, b) ∷ (pset, c) ∷ [])
mach_port_extract_member_trap_wrapper _ = none

abbrev pub mach_port_construct_trap_wrapper : List Argument → Option TrapArgs
mach_port_construct_trap_wrapper (a ∷ b ∷ c ∷ d ∷ []) =
    some ((target, a) ∷ (port_options, b) ∷ (context, c) ∷ (name, d) ∷ [])
mach_port_construct_trap_wrapper _ = none

abbrev pub mach_port_destruct_trap_wrapper : List Argument → Option TrapArgs
mach_port_destruct_trap_wrapper (a ∷ b ∷ c ∷ d ∷ []) =
    some ((target, a) ∷ (name, b) ∷ (srdelta, c) ∷ (guard, d) ∷ [])
mach_port_destruct_trap_wrapper _ = none

abbrev pub mach_reply_port_wrapper : List Argument → Option TrapArgs
mach_reply_port_wrapper [] = some []
mach_reply_port_wrapper _ = none

abbrev pub thread_self_trap_wrapper : List Argument → Option TrapArgs
thread_self_trap_wrapper [] = some []
thread_self_trap_wrapper _ = none

abbrev pub task_self_trap_wrapper : List Argument → Option TrapArgs
task_self_trap_wrapper [] = some []
task_self_trap_wrapper _ = none

abbrev pub host_self_trap_wrapper : List Argument → Option TrapArgs
host_self_trap_wrapper [] = some []
host_self_trap_wrapper _ = none

abbrev pub thread_get_special_reply_port_wrapper : List Argument → Option TrapArgs
thread_get_special_reply_port_wrapper [] = some []
thread_get_special_reply_port_wrapper _ = none

abbrev pub host_create_mach_voucher_trap_wrapper : List Argument → Option TrapArgs
host_create_mach_voucher_trap_wrapper (a ∷ b ∷ c ∷ d ∷ []) =
    some ((host, a) ∷ (recipes, b) ∷ (recipes_size, c) ∷ (voucher, d) ∷ [])
host_create_mach_voucher_trap_wrapper _ = none

abbrev pub mach_voucher_extract_attr_recipe_trap_wrapper : List Argument → Option TrapArgs
mach_voucher_extract_attr_recipe_trap_wrapper (a ∷ b ∷ c ∷ d ∷ []) =
    some ((voucher_name, a) ∷ (key, b) ∷ (recipe, c) ∷ (recipe_size, d) ∷ [])
mach_voucher_extract_attr_recipe_trap_wrapper _ = none

abbrev pub mk_timer_create_trap_wrapper : List Argument → Option TrapArgs
mk_timer_create_trap_wrapper [] = some []
mk_timer_create_trap_wrapper _ = none

abbrev pub mk_timer_destroy_trap_wrapper : List Argument → Option TrapArgs
mk_timer_destroy_trap_wrapper (a ∷ []) = some ((name, a) ∷ [])
mk_timer_destroy_trap_wrapper _ = none

abbrev pub mk_timer_arm_trap_wrapper : List Argument → Option TrapArgs
mk_timer_arm_trap_wrapper (a ∷ b ∷ []) = some ((name, a) ∷ (expire_time, b) ∷ [])
mk_timer_arm_trap_wrapper _ = none

abbrev pub mk_timer_cancel_trap_wrapper : List Argument → Option TrapArgs
mk_timer_cancel_trap_wrapper (a ∷ b ∷ []) = some ((name, a) ∷ (result_time, b) ∷ [])
mk_timer_cancel_trap_wrapper _ = none

abbrev pub mk_timer_arm_leeway_trap_wrapper : List Argument → Option TrapArgs
mk_timer_arm_leeway_trap_wrapper (a ∷ b ∷ c ∷ d ∷ []) =
    some ((name, a) ∷ (mk_timer_flags, b) ∷ (expire_time, c) ∷ (mk_leeway, d) ∷ [])
mk_timer_arm_leeway_trap_wrapper _ = none

-- What a trap is given when its wrapper is called with some arguments, where their number is right.
unfoldable pub trap_args : Function → List Argument → Option TrapArgs
trap_args mach_vm_allocate_trap arguments = mach_vm_allocate_trap_wrapper arguments
trap_args mach_vm_purgable_control_trap arguments = mach_vm_purgable_control_trap_wrapper arguments
trap_args mach_vm_deallocate_trap arguments = mach_vm_deallocate_trap_wrapper arguments
trap_args task_dyld_process_info_notify_get_trap arguments =
    task_dyld_process_info_notify_get_trap_wrapper arguments
trap_args mach_vm_protect_trap arguments = mach_vm_protect_trap_wrapper arguments
trap_args mach_vm_map_trap arguments = mach_vm_map_trap_wrapper arguments
trap_args mach_port_allocate_trap arguments = mach_port_allocate_trap_wrapper arguments
trap_args mach_port_deallocate_trap arguments = mach_port_deallocate_trap_wrapper arguments
trap_args mach_port_mod_refs_trap arguments = mach_port_mod_refs_trap_wrapper arguments
trap_args mach_port_move_member_trap arguments = mach_port_move_member_trap_wrapper arguments
trap_args mach_port_insert_right_trap arguments = mach_port_insert_right_trap_wrapper arguments
trap_args mach_port_insert_member_trap arguments = mach_port_insert_member_trap_wrapper arguments
trap_args mach_port_extract_member_trap arguments = mach_port_extract_member_trap_wrapper arguments
trap_args mach_port_construct_trap arguments = mach_port_construct_trap_wrapper arguments
trap_args mach_port_destruct_trap arguments = mach_port_destruct_trap_wrapper arguments
trap_args mach_port_request_notification_trap arguments =
    mach_port_request_notification_trap_wrapper arguments
trap_args mach_reply_port arguments = mach_reply_port_wrapper arguments
trap_args thread_self_trap arguments = thread_self_trap_wrapper arguments
trap_args task_self_trap arguments = task_self_trap_wrapper arguments
trap_args host_self_trap arguments = host_self_trap_wrapper arguments
trap_args thread_get_special_reply_port arguments = thread_get_special_reply_port_wrapper arguments
trap_args mach_msg_trap arguments = mach_msg_trap_wrapper arguments
trap_args mach_msg_overwrite_trap arguments = mach_msg_overwrite_trap_wrapper arguments
trap_args mach_msg2_trap arguments = mach_msg2_trap_wrapper arguments
trap_args host_create_mach_voucher_trap arguments = host_create_mach_voucher_trap_wrapper arguments
trap_args mach_voucher_extract_attr_recipe_trap arguments =
    mach_voucher_extract_attr_recipe_trap_wrapper arguments
trap_args mk_timer_create_trap arguments = mk_timer_create_trap_wrapper arguments
trap_args mk_timer_destroy_trap arguments = mk_timer_destroy_trap_wrapper arguments
trap_args mk_timer_arm_trap arguments = mk_timer_arm_trap_wrapper arguments
trap_args mk_timer_cancel_trap arguments = mk_timer_cancel_trap_wrapper arguments
trap_args mk_timer_arm_leeway_trap arguments = mk_timer_arm_leeway_trap_wrapper arguments
trap_args other arguments = none
