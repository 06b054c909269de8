-- ===== src/Command/Handler.antt =====
-- HandleCommand of fuzz/handlers/command.cc, with its BSD cases. The handler keeps the connection ids
-- that connectx gave.
use sock_fuzzer.Common.{
  ℕ, Bool, true, false, List, [], ◌∷◌, ◌++◌, none, some, length, get_elem?, if◌then◌else◌, ◌%◌,
}
use sock_fuzzer.Command.{
  Argument, number, bytes, answer, do_random_syscall, do_random_mach_trap, ioctl, do_ip_input,
  connectx, disconnectx, do_necp_client_action, necp_session_action, kevent, do_vm_fault,
  call_bsd_syscall, Function, Action, invoke, block_copyin, unblock_copyin, yield, join_flags,
}
use sock_fuzzer.Command.Traps.{
  VmTrap, PortTrap, MsgTrap, OtherTrap, vm_actions, port_actions, msg_actions, other_actions,
}

-- An ioctl with a structure of its own: the bytes of its in6_aliasreq_64 or ifreq, or no request.
pub data IoctlReal : Type 0 where
  siocaifaddr_in6_64 siocsifflags : (fd : ℕ) → (structure : List ℕ) → IoctlReal
  ioctl_not_set : IoctlReal

-- A connectx message: the endpoints' bytes, which hold the addresses, and the rest.
pub record Connectx : Type 0 where
  pub socket : ℕ
  pub endpoints : List ℕ
  pub associd : ℕ
  pub flags : List ℕ

-- The cases of the message Command. Where a case's message is not the one that is set, its fields
-- have their default values: `default_connectx` below.
pub data Command : Type 0 where
  vm_trap : VmTrap → Command
  port_trap : PortTrap → Command
  msg_trap : MsgTrap → Command
  other_trap : OtherTrap → Command
  arb_bsd_syscall arb_mach_trap : (which : ℕ) → (arguments : List ℕ) → Command
  ioctl_index : (fd index : ℕ) → Command
  ip_input : (packet : List ℕ) → Command
  ioctl_real : IoctlReal → Command
  connect : Connectx → Command
  disconnect : (fd associd cid : ℕ) → Command
  necp_client : (action : List ℕ) → Command
  necp_session : (necp_fd action : ℕ) → (in_buffer : List ℕ) → (out_buffer_size : ℕ) → Command
  kevents : (kq : ℕ) → (changes events : List ℕ) → (nchanges nevents : ℕ) → Command
  vm_fault : (addr type : ℕ) → Command
  exception_not_set : Command
  bsd_syscall : (syscall : List ℕ) → Command
  command_not_set : Command

-- The connectx case, given the id that the kernel stores in `cid`.
unfoldable pub connect_actions : (new_cid : ℕ) → Connectx → (cids : List ℕ) → List Action × List ℕ
connect_actions new_cid c cids = (
  invoke connectx (
        number c.socket
        ∷ bytes c.endpoints
        ∷ number c.associd
        ∷ number (join_flags 0 c.flags)
        ∷ number 0
        ∷ number 0
        ∷ answer
        ∷ answer
        ∷ number 0
        ∷ [])
      ∷ [],
  cids ++ (new_cid ∷ []),
)

-- The id that disconnectx is given: one of the known ones, or the given number where none is known.
unfoldable pub chosen_cid : (cids : List ℕ) → (cid : ℕ) → ℕ
chosen_cid [] cid = cid
chosen_cid (first ∷ cids) cid = elim (get_elem? (first ∷ cids) (cid % length (first ∷ cids))) [
  | some known ↦ known
  | none ↦ 0
]

unfoldable pub ioctl_actions : (siocaifaddr siocsifflags : ℕ) → IoctlReal → List Action
ioctl_actions add set (siocaifaddr_in6_64 fd structure) =
    invoke ioctl (number fd ∷ number add ∷ bytes structure ∷ number 0 ∷ []) ∷ []
ioctl_actions add set (siocsifflags fd structure) =
    invoke ioctl (number fd ∷ number set ∷ bytes structure ∷ number 0 ∷ []) ∷ []
ioctl_actions add set ioctl_not_set = []

-- What the handler has from elsewhere: whether a call of a function comes back through SyscallReturn
-- instead of returning, the answer of task_self_trap, the bytes of mach_port_options_t,
-- the table of ioctl numbers and two of them, the id that the next connectx gives, and the endpoints of
-- a Connectx message in which nothing is set.
pub record Outside : Type 0 where
  pub comes_back : Function → Bool
  pub task : ℕ
  pub options_bytes : (flags limit : ℕ) → (work_interval_port : Argument) → List ℕ
  pub ioctls : ℕ → ℕ
  pub siocaifaddr : ℕ
  pub siocsifflags_number : ℕ
  pub new_cid : ℕ
  pub no_endpoints : List ℕ

abbrev pub default_connectx : Outside → Connectx
default_connectx o = record { socket = 0; endpoints = o.no_endpoints; associd = 0; flags = [] }

-- The switch: the actions and the ids that are known afterwards. The case of IoctlReal has no break and
-- goes on with the one of connectx. An index of the ioctl table is counted from 1; index 0 reads the
-- element before the table.
unfoldable pub command_actions : Outside → Command → (cids : List ℕ) → List Action × List ℕ
command_actions o (vm_trap trap) cids = (vm_actions trap, cids)
command_actions o (port_trap trap) cids = (port_actions o.task o.options_bytes trap, cids)
command_actions o (msg_trap trap) cids = (msg_actions trap, cids)
command_actions o (other_trap trap) cids = (other_actions trap, cids)
command_actions o (arb_bsd_syscall which arguments) cids =
    (invoke do_random_syscall (number which ∷ bytes arguments ∷ []) ∷ [], cids)
command_actions o (arb_mach_trap which arguments) cids =
    (invoke do_random_mach_trap (number which ∷ bytes arguments ∷ []) ∷ [], cids)
command_actions o (ioctl_index fd index) cids = (
  block_copyin
      ∷ invoke ioctl (number fd ∷ number (o.ioctls index) ∷ number 1 ∷ number 0 ∷ [])
      ∷ unblock_copyin
      ∷ [],
  cids,
)
command_actions o (ip_input packet) cids = (invoke do_ip_input (bytes packet ∷ []) ∷ [], cids)
command_actions o (ioctl_real request) cids =
    let (connecting, cids') = connect_actions o.new_cid (default_connectx o) cids in
    (ioctl_actions o.siocaifaddr o.siocsifflags_number request ++ connecting, cids')
command_actions o (connect c) cids = connect_actions o.new_cid c cids
command_actions o (disconnect fd associd cid) cids = (
  invoke disconnectx (number fd ∷ number associd ∷ number (chosen_cid cids cid) ∷ number 0 ∷ [])
      ∷ [],
  cids,
)
command_actions o (necp_client action) cids =
    (invoke do_necp_client_action (bytes action ∷ []) ∷ [], cids)
command_actions o (necp_session necp_fd action in_buffer out_buffer_size) cids = (
  invoke necp_session_action (
        number necp_fd
        ∷ number action
        ∷ bytes in_buffer
        ∷ number (length in_buffer)
        ∷ answer
        ∷ number (out_buffer_size % 4096)
        ∷ answer
        ∷ [])
      ∷ [],
  cids,
)
command_actions o (kevents kq changes events nchanges nevents) cids = (
  invoke kevent (
        number kq
        ∷ bytes changes
        ∷ number nchanges
        ∷ bytes events
        ∷ number nevents
        ∷ number 0
        ∷ answer
        ∷ [])
      ∷ [],
  cids,
)
command_actions o (vm_fault addr type) cids =
    (invoke do_vm_fault (number addr ∷ number type ∷ []) ∷ [], cids)
command_actions o exception_not_set cids = ([], cids)
command_actions o (bsd_syscall syscall) cids =
    (invoke call_bsd_syscall (bytes syscall ∷ []) ∷ [], cids)
command_actions o command_not_set cids = ([], cids)

abbrev pub is_set : Command → Bool
is_set command_not_set = false
is_set command = true

-- The entry point that setjmp saves. A call that comes back through SyscallReturn goes there, and the handler returns
-- at once. The result is what is done until then, or all of the actions, and whether a call comes back.
unfoldable pub until_return : (comes_back : Function → Bool) → List Action → List Action × Bool
until_return comes_back [] = ([], false)
until_return comes_back (invoke function arguments ∷ actions) =
    let (done, returned) = until_return comes_back actions in
    if comes_back function
    then (invoke function arguments ∷ [], true)
    else (invoke function arguments ∷ done, returned)
until_return comes_back (block_copyin ∷ actions) =
    let (done, returned) = until_return comes_back actions in (block_copyin ∷ done, returned)
until_return comes_back (unblock_copyin ∷ actions) =
    let (done, returned) = until_return comes_back actions in (unblock_copyin ∷ done, returned)
until_return comes_back (yield ∷ actions) =
    let (done, returned) = until_return comes_back actions in (yield ∷ done, returned)

-- The handler yields after every command that is set, where no call comes back through SyscallReturn.
-- Where one does, it neither yields nor keeps the connection id, which it does after the call of connectx.
unfoldable pub handle_command : Outside → Command → (cids : List ℕ) → List Action × List ℕ
handle_command o command cids =
    let (actions, cids') = command_actions o command cids in
    let (done, returned) = until_return o.comes_back actions in
    if returned then (done, cids) else (done ++ (if is_set command then yield ∷ [] else []), cids')

-- The loop of CommandThread, with what is outside at each command.
unfoldable pub handle_commands :
    (outside : ℕ → Outside) → List Command → (cids : List ℕ) → List Action × List ℕ
handle_commands outside [] cids = ([], cids)
handle_commands outside (command ∷ commands) cids =
    let (first, cids') = handle_command (outside (length commands)) command cids in
    let (rest, cids'') = handle_commands outside commands cids' in (first ++ rest, cids'')
