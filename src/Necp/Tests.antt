-- ===== src/Necp/Tests.antt =====
-- Requests with two entries, and with room to copy out.
use sock_fuzzer.Common.{ℕ, List, [], ◌∷◌, some, ◌≡◌, refl, length, arith}
use sock_fuzzer.Necp.{
  client_2, NecpCall, NecpTlv, filled, agent, copy_parameters, do_necp_client_action,
  necp_client_copy_parameters, encode, room,
}
use sock_fuzzer.Necp.Laws.{decode, necp_client_agent-decode}

abbrev two_entries : List NecpTlv
two_entries =
    (record { necp_type = 9; bytes = 1 ∷ 2 ∷ [] }) ∷ (record { necp_type = 255; bytes = [] }) ∷ []

necp_client_agent-decode_example :
    (call : NecpCall) × (bytes : List ℕ) × (do_necp_client_action 3 client_2 (agent two_entries)
      ≡ some call)
    × (call.buffer ≡ filled bytes)
    × (decode 2 bytes ≡ some two_entries)
    × (length call.client_id ≡ 16)
necp_client_agent-decode_example =
    necp_client_agent-decode 3 client_2 two_entries
      ((omega arith, omega arith), ((omega arith, omega arith), tt))

-- The size is cut to 4096.
small_room :
    do_necp_client_action 3 client_2 (copy_parameters 5000)
    ≡ some (record (necp_client_copy_parameters 3 client_2 0) { buffer = room 904 })
unfolding do_necp_client_action
small_room = refl

one_entry : encode (record { necp_type = 9; bytes = 1 ∷ 2 ∷ [] }) ≡ 9 ∷ 2 ∷ 0 ∷ 0 ∷ 0 ∷ 1 ∷ 2 ∷ []
unfolding encode
one_entry = refl
