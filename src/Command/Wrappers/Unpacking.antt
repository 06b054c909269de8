-- ===== src/Command/Wrappers/Unpacking.antt =====
-- What mach_msg2_trap is given for a MachMsg2Trap of fuzz/handlers/command.cc, taken apart again as the names of
-- the fields say.
use Prim.Native.Nat.{bit_or}
use sock_fuzzer.Common.{
  ℕ, List, [], ◌∷◌, Option, none, some, ◌≡◌, refl, ap, ◌∙◌, ◌+◌, ◌*◌, ◌/◌, ◌%◌, ◌^◌, ◌<◌, arith,
}
use sock_fuzzer.Message.{get_mach_port}
use sock_fuzzer.Command.{Argument, number, Action, invoke}
use sock_fuzzer.Command.Traps.{Msg2Fields, pack, message_argument, message_length, handle_mach_msg2}
use sock_fuzzer.Command.Wrappers.{
  TrapArgs, trap_args, data_address, options_word, msgh_bits_and_send_size,
  msgh_remote_and_local_port, msgh_voucher_and_id, desc_count_and_rcv_name, rcv_size_and_priority,
  timeout,
}
use sock_fuzzer.Command.Wrappers.Laws.{or_apart, apart_or}

-- The numbers of 32 bits in the words, and the timeout.
pub record Unpacked : Type 0 where
  pub message : Argument
  pub msgh_bits : ℕ
  pub send_size : ℕ
  pub remote_port : ℕ
  pub local_port : ℕ
  pub voucher_port : ℕ
  pub msgh_id : ℕ
  pub desc_count : ℕ
  pub rcv_name : ℕ
  pub rcv_size : ℕ
  pub priority : ℕ
  pub timeout_word : ℕ

abbrev pub low_half : ℕ → ℕ
low_half word = word % 2 ^ 32

abbrev pub high_half : ℕ → ℕ
high_half word = word / 2 ^ 32

abbrev pub unpack : TrapArgs → Option Unpacked
unpack
      ((data_address, message)
        ∷ (options_word, options)
        ∷ (msgh_bits_and_send_size, number bits_and_size)
        ∷ (msgh_remote_and_local_port, number remote_and_local)
        ∷ (msgh_voucher_and_id, number voucher_and_id)
        ∷ (desc_count_and_rcv_name, number count_and_name)
        ∷ (rcv_size_and_priority, number size_and_priority)
        ∷ (timeout, number t)
        ∷ []) =
    some (record {
      message = message;
      msgh_bits = low_half bits_and_size;
      send_size = high_half bits_and_size;
      remote_port = low_half remote_and_local;
      local_port = high_half remote_and_local;
      voucher_port = low_half voucher_and_id;
      msgh_id = high_half voucher_and_id;
      desc_count = low_half count_and_name;
      rcv_name = high_half count_and_name;
      rcv_size = low_half size_and_priority;
      priority = high_half size_and_priority;
      timeout_word = t;
    })
unpack args = none

-- One call of the kernel, through its wrapper.
abbrev pub unpack_action : List Action → Option Unpacked
unpack_action (invoke function arguments ∷ []) = elim (trap_args function arguments) [
  | none ↦ none
  | some args ↦ unpack args
]
unpack_action actions = none

pack-sum : (low high : ℕ) → pack low high ≡ low % 2 ^ 32 + high % 2 ^ 32 * 2 ^ 32
pack-sum low high =
    let wrapped : high * 2 ^ 32 % 2 ^ 64 ≡ high % 2 ^ 32 * 2 ^ 32 = omega arith in
    ap (bit_or (low % 2 ^ 32)) wrapped ∙ or_apart (low % 2 ^ 32) 32 (high % 2 ^ 32) (omega arith)

pack-low : (low high : ℕ) → low_half (pack low high) ≡ low % 2 ^ 32
pack-low low high = omega (arith, pack-sum low high)

pack-high : (low high : ℕ) → high_half (pack low high) ≡ high % 2 ^ 32
pack-high low high = omega (arith, pack-sum low high)

sized-sum :
    (size bits : ℕ)
    → bits < 2 ^ 32
    → bit_or (size * 2 ^ 32 % 2 ^ 64) bits ≡ size % 2 ^ 32 * 2 ^ 32 + bits
sized-sum size bits narrow =
    let wrapped : size * 2 ^ 32 % 2 ^ 64 ≡ size % 2 ^ 32 * 2 ^ 32 = omega arith in
    ap (λ word. bit_or word bits) wrapped ∙ apart_or (size % 2 ^ 32) 32 bits narrow

-- When the bits of the header fit in 32 bits, the wrapper of mach_msg2_trap takes what HandleMachMsg2 hands
-- it, and the halves of the packed words are the numbers that they are packed from, in 32 bits: the bits and
-- the length of the message, the remote and the local port, the voucher and the id, the number of descriptors
-- and the name to receive on, and the receive size and the priority. The message and the timeout arrive as
-- they are.
pub handle_mach_msg2-unpack :
    (f : Msg2Fields)
    → f.sent_bits < 2 ^ 32
    → unpack_action (handle_mach_msg2 f)
      ≡ some (record {
        message = message_argument 0 f.message;
        msgh_bits = f.sent_bits;
        send_size = message_length f.message % 2 ^ 32;
        remote_port = get_mach_port f.remote_port % 2 ^ 32;
        local_port = get_mach_port f.local_port % 2 ^ 32;
        voucher_port = get_mach_port f.voucher_port % 2 ^ 32;
        msgh_id = f.msgh_id % 2 ^ 32;
        desc_count = f.desc_count % 2 ^ 32;
        rcv_name = get_mach_port f.rcv_name % 2 ^ 32;
        rcv_size = f.rcv_size % 2 ^ 32;
        priority = f.priority % 2 ^ 32;
        timeout_word = f.timeout;
      })
unfolding handle_mach_msg2 trap_args
handle_mach_msg2-unpack f narrow =
    let sized = sized-sum (message_length f.message) f.sent_bits narrow in
    let low : low_half (bit_or (message_length f.message * 2 ^ 32 % 2 ^ 64) f.sent_bits)
        ≡ f.sent_bits =
      omega (arith, sized) in
    let high : high_half (bit_or (message_length f.message * 2 ^ 32 % 2 ^ 64) f.sent_bits)
        ≡ message_length f.message % 2 ^ 32 =
      omega (arith, sized) in
    simp
      (
        low,
        high,
        pack-low (get_mach_port f.remote_port) (get_mach_port f.local_port),
        pack-high (get_mach_port f.remote_port) (get_mach_port f.local_port),
        pack-low (get_mach_port f.voucher_port) f.msgh_id,
        pack-high (get_mach_port f.voucher_port) f.msgh_id,
        pack-low f.desc_count (get_mach_port f.rcv_name),
        pack-high f.desc_count (get_mach_port f.rcv_name),
        pack-low f.rcv_size f.priority,
        pack-high f.rcv_size f.priority,
      )
      refl
