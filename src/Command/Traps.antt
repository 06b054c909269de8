-- ===== src/Command/Traps.antt =====
-- The Mach traps among the commands: virtual memory, ports, messages, vouchers and timers.
use Prim.Native.Nat.{bit_or}
use sock_fuzzer.Common.{ℕ, List, [], ◌∷◌, Option, none, some, length, ◌%◌, ◌*◌, ◌^◌}
use sock_fuzzer.Message.{Port, get_mach_port}
use sock_fuzzer.Command.{
  Argument, number, bytes, answer, mach_vm_allocate_trap, mach_vm_purgable_control_trap,
  mach_vm_deallocate_trap, mach_vm_protect_trap, mach_vm_map_trap,
  task_dyld_process_info_notify_get_trap, mach_port_allocate_trap, mach_port_deallocate_trap,
  mach_port_mod_refs_trap, mach_port_move_member_trap, mach_port_insert_right_trap,
  mach_port_insert_member_trap, mach_port_extract_member_trap, mach_port_construct_trap,
  mach_port_destruct_trap, mach_port_request_notification_trap, mach_reply_port, task_self_trap,
  thread_self_trap, host_self_trap, thread_get_special_reply_port, mach_msg_overwrite_trap,
  mach_msg_trap, mach_msg2_trap, host_create_mach_voucher_trap,
  mach_voucher_extract_attr_recipe_trap, mk_timer_create_trap, mk_timer_destroy_trap,
  mk_timer_cancel_trap, mk_timer_arm_trap, mk_timer_arm_leeway_trap, Action, invoke, join_flags,
  get_protection, port_name,
}

pub data VmTrap : Type 0 where
  allocate : (target : Port) → (size flags : ℕ) → VmTrap
  purgable_control : (target : Port) → (address control : ℕ) → VmTrap
  deallocate : (target : Port) → (address size : ℕ) → VmTrap
  dyld_process_info_notify_get : VmTrap
  protect :
      (target : Port) → (address size : ℕ) → (set_maximum : ℕ) → (new_protection : List ℕ) → VmTrap
  map_memory : (target : Port) → (size mask flags : ℕ) → (cur_protection : List ℕ) → VmTrap

unfoldable pub vm_actions : VmTrap → List Action
vm_actions (allocate target size flags) =
    invoke mach_vm_allocate_trap (port_name target ∷ number 1 ∷ number size ∷ number flags ∷ [])
    ∷ []
vm_actions (purgable_control target address control) =
    invoke mach_vm_purgable_control_trap
      (port_name target ∷ number address ∷ number control ∷ number 1 ∷ [])
    ∷ []
vm_actions (deallocate target address size) =
    invoke mach_vm_deallocate_trap (port_name target ∷ number address ∷ number size ∷ []) ∷ []
vm_actions dyld_process_info_notify_get =
    invoke task_dyld_process_info_notify_get_trap (number 1 ∷ number 1 ∷ []) ∷ []
vm_actions (protect target address size set_maximum new_protection) =
    invoke mach_vm_protect_trap (
      port_name target
      ∷ number address
      ∷ number size
      ∷ number set_maximum
      ∷ number (get_protection new_protection)
      ∷ [])
    ∷ []
vm_actions (map_memory target size mask flags cur_protection) =
    invoke mach_vm_map_trap (
      port_name target
      ∷ number 1
      ∷ number size
      ∷ number mask
      ∷ number flags
      ∷ number (get_protection cur_protection)
      ∷ [])
    ∷ []

pub data PortTrap : Type 0 where
  port_allocate : (target : Port) → (right : ℕ) → PortTrap
  port_deallocate : (target name : Port) → PortTrap
  mod_refs : (target name : Port) → (right delta : ℕ) → PortTrap
  move_member : (target member after : Port) → PortTrap
  insert_right : (target name poly : Port) → (polypoly : ℕ) → PortTrap
  insert_member extract_member : (target name pset : Port) → PortTrap
  construct :
      (target : Port)
      → (flags : List ℕ) → (limit : ℕ) → (work_interval_port : Port) → (context : ℕ) → PortTrap
  destruct : (target name : Port) → (srdelta guard : ℕ) → PortTrap
  request_notification :
      (name : Port) → (msgid sync : ℕ) → (notify : Port) → (notify_poly : ℕ) → PortTrap
  reply_port thread_self task_self host_self special_reply_port : PortTrap

-- `task` is what task_self_trap answers; `options_bytes` are the bytes of XNU's mach_port_options_t.
module _ (task : ℕ)
    (options_bytes : (flags limit : ℕ) → (work_interval_port : Argument) → List ℕ) where
  unfoldable pub port_actions : PortTrap → List Action
  port_actions (port_allocate target right) =
      invoke mach_port_allocate_trap (port_name target ∷ number right ∷ answer ∷ []) ∷ []
  port_actions (port_deallocate target name) =
      invoke mach_port_deallocate_trap (port_name target ∷ port_name name ∷ []) ∷ []
  port_actions (mod_refs target name right delta) =
      invoke mach_port_mod_refs_trap
        (port_name target ∷ port_name name ∷ number right ∷ number delta ∷ [])
      ∷ []
  port_actions (move_member target member after) =
      invoke mach_port_move_member_trap (port_name target ∷ port_name member ∷ port_name after ∷ [])
      ∷ []
  port_actions (insert_right target name poly polypoly) =
      invoke mach_port_insert_right_trap
        (port_name target ∷ port_name name ∷ port_name poly ∷ number polypoly ∷ [])
      ∷ []
  port_actions (insert_member target name pset) =
      invoke mach_port_insert_member_trap (port_name target ∷ port_name name ∷ port_name pset ∷ [])
      ∷ []
  port_actions (extract_member target name pset) =
      invoke mach_port_extract_member_trap (port_name target ∷ port_name name ∷ port_name pset ∷ [])
      ∷ []
  port_actions (construct target flags limit work_interval_port context) =
      invoke task_self_trap []
      ∷ invoke mach_port_construct_trap (
          port_name target
          ∷ bytes (options_bytes (join_flags 0 flags) limit (port_name work_interval_port))
          ∷ number context
          ∷ answer
          ∷ [])
      ∷ []
  port_actions (destruct target name srdelta guard) =
      invoke mach_port_destruct_trap
        (port_name target ∷ port_name name ∷ number srdelta ∷ number guard ∷ [])
      ∷ []
  port_actions (request_notification name msgid sync notify notify_poly) =
      invoke task_self_trap []
      ∷ invoke mach_port_request_notification_trap (
          number task
          ∷ port_name name
          ∷ number msgid
          ∷ number sync
          ∷ port_name notify
          ∷ number notify_poly
          ∷ answer
          ∷ [])
      ∷ []
  port_actions reply_port = invoke mach_reply_port [] ∷ []
  port_actions thread_self = invoke thread_self_trap [] ∷ []
  port_actions task_self = invoke task_self_trap [] ∷ []
  port_actions host_self = invoke host_self_trap [] ∷ []
  port_actions special_reply_port = invoke thread_get_special_reply_port [] ∷ []

-- The fields that the commands for mach_msg share. A message is given by its bytes.
pub record MsgFields : Type 0 where
  pub options : List ℕ
  pub rcv_size : ℕ
  pub rcv_name : Port
  pub timeout : ℕ
  pub priority : ℕ
  pub rcv_msg : ℕ

-- MachMsg2Trap. `sent_bits` is MACH_MSGH_BITS_SET of the types in the message's header.
pub record Msg2Fields : Type 0 where
  pub message : Option (List ℕ)
  pub options : List ℕ
  pub options_upper_bits : List ℕ
  pub sent_bits : ℕ
  pub remote_port : Port
  pub local_port : Port
  pub voucher_port : Port
  pub msgh_id : ℕ
  pub desc_count : ℕ
  pub rcv_name : Port
  pub rcv_size : ℕ
  pub priority : ℕ
  pub timeout : ℕ

-- Two numbers in one of 64 bits.
abbrev pub pack : (low high : ℕ) → ℕ
pack low high = bit_or (low % 2 ^ 32) (high * 2 ^ 32 % 2 ^ 64)

abbrev pub shift_all : List ℕ → List ℕ
shift_all [] = []
shift_all (option ∷ options) = (option * 2 ^ 32) % 2 ^ 64 ∷ shift_all options

abbrev pub message_argument : (otherwise : ℕ) → Option (List ℕ) → Argument
message_argument otherwise none = number otherwise
message_argument otherwise (some message) = bytes message

abbrev pub message_length : Option (List ℕ) → ℕ
message_length none = 0
message_length (some message) = length message

-- Bit 63 of the options stands for mach_msg2.
unfoldable pub handle_mach_msg2 : Msg2Fields → List Action
handle_mach_msg2 f =
    invoke mach_msg2_trap (
      message_argument 0 f.message
      ∷ number (join_flags (join_flags (2 ^ 63) f.options) (shift_all f.options_upper_bits))
      ∷ number (bit_or (message_length f.message * 2 ^ 32 % 2 ^ 64) f.sent_bits)
      ∷ number (pack (get_mach_port f.remote_port) (get_mach_port f.local_port))
      ∷ number (pack (get_mach_port f.voucher_port) f.msgh_id)
      ∷ number (pack f.desc_count (get_mach_port f.rcv_name))
      ∷ number (pack f.rcv_size f.priority)
      ∷ number f.timeout
      ∷ [])
    ∷ []

-- A message of a MIG routine is empty where there is no routine.
pub data MsgTrap : Type 0 where
  mach_msg mach_msg_overwrite : (message : Option (List ℕ)) → MsgFields → MsgTrap
  mach_msg2 : Msg2Fields → MsgTrap
  mig_routine_mach_msg : (message : List ℕ) → MsgFields → MsgTrap

abbrev pub msg_arguments : Argument → (size : ℕ) → MsgFields → List Argument
msg_arguments message size f =
    message
    ∷ number (join_flags 0 f.options)
    ∷ number size
    ∷ number f.rcv_size
    ∷ port_name f.rcv_name
    ∷ number f.timeout
    ∷ number f.priority
    ∷ number f.rcv_msg
    ∷ []

-- The case of mach_msg begins with a break.
unfoldable pub msg_actions : MsgTrap → List Action
unfolding handle_mach_msg2
msg_actions (mach_msg message f) = []
msg_actions (mach_msg_overwrite message f) =
    invoke mach_msg_overwrite_trap
      (msg_arguments (message_argument 1 message) (message_length message) f)
    ∷ []
msg_actions (mach_msg2 f) = handle_mach_msg2 f
msg_actions (mig_routine_mach_msg message f) =
    invoke mach_msg_trap (msg_arguments (bytes message) (length message) f) ∷ []

pub data OtherTrap : Type 0 where
  create_mach_voucher : (host : Port) → (recipes : List ℕ) → OtherTrap
  voucher_extract_attr_recipe : (voucher_name : Port) → (key : ℕ) → (recipe : List ℕ) → OtherTrap
  timer_create : OtherTrap
  timer_destroy timer_cancel : (name : Port) → OtherTrap
  timer_arm : (name : Port) → (expire_time : ℕ) → OtherTrap
  timer_arm_leeway : (name : Port) → (flags expire_time leeway : ℕ) → OtherTrap

unfoldable pub other_actions : OtherTrap → List Action
other_actions (create_mach_voucher host recipes) =
    invoke host_create_mach_voucher_trap
      (port_name host ∷ bytes recipes ∷ number (length recipes) ∷ number 1 ∷ [])
    ∷ []
other_actions (voucher_extract_attr_recipe voucher_name key recipe) =
    invoke mach_voucher_extract_attr_recipe_trap
      (port_name voucher_name ∷ number key ∷ bytes recipe ∷ answer ∷ [])
    ∷ []
other_actions timer_create = invoke mk_timer_create_trap [] ∷ []
other_actions (timer_destroy name) = invoke mk_timer_destroy_trap (port_name name ∷ []) ∷ []
other_actions (timer_cancel name) =
    invoke mk_timer_cancel_trap (port_name name ∷ number 0 ∷ []) ∷ []
other_actions (timer_arm name expire_time) =
    invoke mk_timer_arm_trap (port_name name ∷ number expire_time ∷ []) ∷ []
other_actions (timer_arm_leeway name flags expire_time leeway) =
    invoke mk_timer_arm_leeway_trap
      (port_name name ∷ number flags ∷ number expire_time ∷ number leeway ∷ [])
    ∷ []
