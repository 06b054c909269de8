-- ===== src/Message.antt =====
-- Building Mach messages from their protobuf form: fuzz/handlers/mach_message.cc, and GetMigRoutineMsg
-- of fuzz/handlers/mig_types.cc. Bytes are numbers. The layout of XNU's structures is an interface.
pub mod Laws
mod Tests
use sock_fuzzer.Common.{
  ℕ, Bool, true, false, Option, none, some, List, [], ◌∷◌, ◌++◌, length, replicate, Outcome, ok,
  stop, aborted, if◌then◌else◌, ◌≡◌, ◌+◌, ◌^◌, ◌%◌, ◌==◌, zero, suc,
}

-- mach_msg_header_t.
pub record Header : Type 0 where
  pub msgh_bits : ℕ
  pub msgh_size : ℕ
  pub msgh_remote_port : ℕ
  pub msgh_local_port : ℕ
  pub msgh_voucher_port : ℕ
  pub msgh_id : ℕ

-- The bytes of a header and of a mach_msg_body_t, of fixed sizes, MACH_MSGH_BITS_SET and
-- MACH_MSGH_BITS_COMPLEX.
pub record Layout : Type 0 where
  pub header_bytes : Header → List ℕ
  pub header_size : ℕ
  pub header_bytes_lem : (h : Header) → length (header_bytes h) ≡ header_size
  pub body_bytes : (descriptor_count : ℕ) → List ℕ
  pub body_size : ℕ
  pub body_bytes_lem : (descriptor_count : ℕ) → length (body_bytes descriptor_count) ≡ body_size
  pub bits_set : (remote local voucher other : ℕ) → ℕ
  pub complex : ℕ

-- The port number -1 is CASE_NEGATIVE; a number of the enumeration is given as a word of 32 bits.
pub data Port : Type 0 where
  case_negative : Port
  numbered : ℕ → Port

unfoldable pub get_mach_port : Port → ℕ
get_mach_port case_negative = 4294967295
get_mach_port (numbered port) = port

-- memcpy to the beginning of a buffer. What does not fit is not there to be read.
abbrev pub overwrite : (source buffer : List ℕ) → List ℕ
overwrite [] buffer = buffer
overwrite (x ∷ source) [] = []
overwrite (x ∷ source) (y ∷ buffer) = x ∷ overwrite source buffer

-- memcpy to the offset `at_byte`.
abbrev pub copy_at : (at_byte : ℕ) → (source buffer : List ℕ) → List ℕ
copy_at zero source buffer = overwrite source buffer
copy_at (suc at_byte) source [] = []
copy_at (suc at_byte) source (y ∷ buffer) = y ∷ copy_at at_byte source buffer

abbrev pub total_size : List (List ℕ) → ℕ
total_size [] = 0
total_size (descriptor ∷ descriptors) = length descriptor + total_size descriptors

-- The loop over the descriptors: the buffer and the offset.
unfoldable pub copy_descriptors : List (List ℕ) → (at_byte : ℕ) → (buffer : List ℕ) → List ℕ × ℕ
copy_descriptors [] at_byte buffer = (buffer, at_byte)
copy_descriptors (descriptor ∷ descriptors) at_byte buffer =
    copy_descriptors descriptors (at_byte + length descriptor) (copy_at at_byte descriptor buffer)

abbrev pub is_empty {ℓ} : {A : Type ℓ} → List A → Bool
is_empty [] = true
is_empty (x ∷ xs) = false

-- What a message is made of: the types and ports of its header, its data and its descriptors.
pub record Parts : Type 0 where
  pub remote_type : ℕ
  pub remote_port : ℕ
  pub local_type : ℕ
  pub local_port : ℕ
  pub voucher_type : ℕ
  pub voucher_port : ℕ
  pub msgh_id : ℕ
  pub inline_data : List ℕ
  pub descriptors : List (List ℕ)

module _ (layout : Layout) where
  abbrev pub message_size : Parts → ℕ
  message_size p =
      layout.header_size
      + (if is_empty p.descriptors then 0 else layout.body_size + total_size p.descriptors)
      + length p.inline_data

  -- msgh_size has 32 bits.
  abbrev pub message_header : Parts → Header
  message_header p = record {
    msgh_bits =
        layout.bits_set p.remote_type p.local_type p.voucher_type
          (if is_empty p.descriptors then 0 else layout.complex);
    msgh_size = message_size p % 2 ^ 32;
    msgh_remote_port = p.remote_port;
    msgh_local_port = p.local_port;
    msgh_voucher_port = p.voucher_port;
    msgh_id = p.msgh_id;
  }

  -- The buffer with the header and the number of descriptors in it, and the offset behind them.
  abbrev pub start_message : Parts → List ℕ × ℕ
  start_message p =
      let headed =
        copy_at 0 (layout.header_bytes (message_header p)) (replicate (message_size p) 0) in
      if is_empty p.descriptors then (headed, layout.header_size) else (
        copy_at layout.header_size (layout.body_bytes (length p.descriptors % 2 ^ 32)) headed,
        layout.header_size + layout.body_size,
      )

  -- The data, and the check that they end where the buffer does.
  abbrev pub end_message : (size : ℕ) → (inline_data : List ℕ) → List ℕ × ℕ → Outcome (List ℕ)
  end_message size inline_data (buffer, at_byte) =
      if at_byte + length inline_data == size
      then ok (copy_at at_byte inline_data buffer)
      else stop aborted

  unfoldable pub get_mach_msg_struct : Parts → Outcome (List ℕ)
  get_mach_msg_struct p =
      let (buffer, at_byte) = start_message p in
      end_message (message_size p) p.inline_data (copy_descriptors p.descriptors at_byte buffer)

  -- MigRoutine's data come from generated code: the message id, 0 for none, and the rest.
  unfoldable pub get_mig_routine_msg : Parts → Outcome (List ℕ)
  get_mig_routine_msg p = if p.msgh_id == 0 then ok [] else get_mach_msg_struct p

-- The kinds of a MachMsgDescriptor. `type` is its constant MACH_MSG_..._DESCRIPTOR; the address of
-- out-of-line memory is always 1.
pub data Descriptor : Type 0 where
  port : (name : Port) → (disposition : ℕ) → Descriptor
  out_of_line out_of_line_volatile : (deallocate : Bool) → (copy size : ℕ) → Descriptor
  ool_ports : (deallocate : Bool) → (copy disposition : ℕ) → (names : List Port) → Descriptor
  guarded_port : (context flags disposition : ℕ) → (name : Port) → Descriptor
  descriptor_not_set : Descriptor

-- The bytes of XNU's descriptor structures.
pub record DescriptorLayout : Type 0 where
  pub port_bytes : (name disposition : ℕ) → List ℕ
  pub ool_bytes :
      (address : ℕ) → (deallocate : Bool) → (copy : ℕ) → (is_volatile : Bool) → (size : ℕ) → List ℕ
  pub ool_ports_bytes : (address : ℕ) → (deallocate : Bool) → (copy disposition count : ℕ) → List ℕ
  pub guarded_port_bytes : (context flags disposition name : ℕ) → List ℕ

module _ (bytes : DescriptorLayout) where
  unfoldable pub get_mach_msg_descriptor : Descriptor → List ℕ
  get_mach_msg_descriptor (port name disposition) =
      bytes.port_bytes (get_mach_port name) disposition
  get_mach_msg_descriptor (out_of_line deallocate copy size) =
      bytes.ool_bytes 1 deallocate copy false size
  get_mach_msg_descriptor (out_of_line_volatile deallocate copy size) =
      bytes.ool_bytes 1 deallocate copy true size
  get_mach_msg_descriptor (ool_ports deallocate copy disposition names) =
      bytes.ool_ports_bytes 1 deallocate copy disposition (length names % 2 ^ 32)
  get_mach_msg_descriptor (guarded_port context flags disposition name) =
      bytes.guarded_port_bytes context flags disposition (get_mach_port name)
  get_mach_msg_descriptor descriptor_not_set = []

  unfoldable pub get_descriptors : List Descriptor → List (List ℕ)
  get_descriptors [] = []
  get_descriptors (descriptor_not_set ∷ body) = get_descriptors body
  get_descriptors (descriptor ∷ body) = get_mach_msg_descriptor descriptor ∷ get_descriptors body

-- A MachMsg: its header, if it has one, with the types and ports of msgh_bits, its body and its data.
pub record MachMsgHeader : Type 0 where
  pub remote : ℕ
  pub local : ℕ
  pub voucher : ℕ
  pub remote_port : Port
  pub local_port : Port
  pub voucher_port : Port
  pub msgh_id : ℕ

pub record MachMsg : Type 0 where
  pub header : Option MachMsgHeader
  pub body : List Descriptor
  pub contents : List ℕ

module _ (layout : Layout) (bytes : DescriptorLayout) where
  unfoldable pub get_mach_msg : MachMsg → Outcome (List ℕ)
  get_mach_msg msg = elim msg.header [
    | none ↦ ok msg.contents
    | some h ↦ get_mach_msg_struct layout (record {
      remote_type = h.remote;
      remote_port = get_mach_port h.remote_port;
      local_type = h.local;
      local_port = get_mach_port h.local_port;
      voucher_type = h.voucher;
      voucher_port = get_mach_port h.voucher_port;
      msgh_id = h.msgh_id;
      inline_data = msg.contents;
      descriptors = get_descriptors bytes msg.body;
    })
  ]
