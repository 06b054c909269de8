-- ===== src/Message/Tests.antt =====
-- Messages in a layout with a header of three bytes and a body of one.
use sock_fuzzer.Common.{true, none, some, [], ◌∷◌, length, ok, ◌≡◌, refl, ◌^◌, ◌%◌}
use sock_fuzzer.Message.{
  Layout, DescriptorLayout, Parts, message_size, message_header, get_mach_msg_struct,
  get_mig_routine_msg, copy_descriptors, case_negative, numbered, get_mach_port, port, out_of_line,
  descriptor_not_set, get_mach_msg_descriptor, get_descriptors, get_mach_msg,
}
use sock_fuzzer.Message.Laws.{assembled, get_mach_msg_struct-assembled}

abbrev small : Layout
small = record {
  header_bytes = λ h. h.msgh_bits ∷ h.msgh_size ∷ h.msgh_id ∷ [];
  header_size = 3;
  header_bytes_lem = λ h. refl;
  body_bytes = λ n. n ∷ [];
  body_size = 1;
  body_bytes_lem = λ n. refl;
  bits_set = λ remote local voucher other. other;
  complex = 128;
}

abbrev parts : Parts
parts = record {
  remote_type = 0;
  remote_port = 1;
  local_type = 0;
  local_port = 2;
  voucher_type = 0;
  voucher_port = 3;
  msgh_id = 400;
  inline_data = 7 ∷ 8 ∷ [];
  descriptors = (5 ∷ 6 ∷ []) ∷ (9 ∷ []) ∷ [];
}

get_mach_msg_struct-assembled_example :
    (get_mach_msg_struct small parts ≡ ok (assembled small parts))
    × (length (assembled small parts) ≡ message_size small parts)
    × ((message_header small parts).msgh_size ≡ length (assembled small parts) % 2 ^ 32)
get_mach_msg_struct-assembled_example = get_mach_msg_struct-assembled small parts

layout_of_parts : get_mach_msg_struct small parts ≡ ok (128 ∷ 9 ∷ 400 ∷ 2 ∷ 5 ∷ 6 ∷ 9 ∷ 7 ∷ 8 ∷ [])
unfolding get_mach_msg_struct copy_descriptors
layout_of_parts = refl

no_routine : get_mig_routine_msg small (record parts { msgh_id = 0 }) ≡ ok []
unfolding get_mig_routine_msg
no_routine = refl

abbrev tags : DescriptorLayout
tags = record {
  port_bytes = λ name disposition. 10 ∷ name ∷ [];
  ool_bytes = λ address deallocate copy is_volatile size. 11 ∷ size ∷ [];
  ool_ports_bytes = λ address deallocate copy disposition count. 12 ∷ count ∷ [];
  guarded_port_bytes = λ context flags disposition name. 13 ∷ name ∷ [];
}

-- The unset descriptor is skipped and not counted.
skipped :
    get_mach_msg small tags (record {
      header = some (record {
        remote = 0;
        local = 0;
        voucher = 0;
        remote_port = numbered 1;
        local_port = numbered 2;
        voucher_port = case_negative;
        msgh_id = 40;
      });
      body = port case_negative 0 ∷ descriptor_not_set ∷ out_of_line true 0 4 ∷ [];
      contents = [];
    })
    ≡ ok (128 ∷ 8 ∷ 40 ∷ 2 ∷ 10 ∷ 4294967295 ∷ 11 ∷ 4 ∷ [])
unfolding get_mach_msg get_mach_msg_struct copy_descriptors get_descriptors get_mach_msg_descriptor
    get_mach_port
skipped = refl

bare :
    get_mach_msg small tags (record { header = none; body = []; contents = 1 ∷ [] }) ≡ ok (1 ∷ [])
unfolding get_mach_msg
bare = refl
