-- ===== src/Necp.antt =====
-- NECP requests: fuzz/handlers/necp.cc. Each request is the call of necp_client_action_wrapper that it
-- ends in; the identifier is passed with its size, which is that of the list.
mod Laws
mod Tests
use sock_fuzzer.Common.{ℕ, List, [], ◌∷◌, ◌++◌, length, replicate, Option, none, some, ◌%◌}
use sock_fuzzer.Packet.{le}

pub data NecpClientId : Type 0 where
  client_0 client_1 client_2 : NecpClientId

-- Sixteen digits. The assertion behind the switch is not reached.
abbrev pub get_necp_client : NecpClientId → List ℕ
get_necp_client client_0 = replicate 16 48
get_necp_client client_1 = replicate 16 49
get_necp_client client_2 = replicate 16 50

pub data NecpAction : Type 0 where
  action_add action_remove action_copy_parameters action_agent : NecpAction

-- A buffer: the null pointer, bytes to read, or room for some bytes to write.
pub data NecpBuffer : Type 0 where
  no_buffer : NecpBuffer
  filled : (bytes : List ℕ) → NecpBuffer
  room : (size : ℕ) → NecpBuffer

-- The arguments of necp_client_action_wrapper.
pub record NecpCall : Type 0 where
  pub necp_fd : ℕ
  pub action : NecpAction
  pub client_id : List ℕ
  pub buffer : NecpBuffer

abbrev pub necp_client_add : (fd : ℕ) → NecpClientId → (bytes : List ℕ) → NecpCall
necp_client_add fd client bytes = record {
  necp_fd = fd;
  action = action_add;
  client_id = get_necp_client client;
  buffer = filled bytes;
}

abbrev pub necp_client_remove : (fd : ℕ) → NecpClientId → NecpCall
necp_client_remove fd client = record {
  necp_fd = fd;
  action = action_remove;
  client_id = get_necp_client client;
  buffer = no_buffer;
}

abbrev pub necp_client_copy_parameters : (fd : ℕ) → NecpClientId → (copyout_size : ℕ) → NecpCall
necp_client_copy_parameters fd client copyout_size = record {
  necp_fd = fd;
  action = action_copy_parameters;
  client_id = get_necp_client client;
  buffer = room (copyout_size % 4096);
}

pub record NecpTlv : Type 0 where
  pub necp_type : ℕ
  pub bytes : List ℕ

-- The packed header of 5 bytes, and the data.
unfoldable pub encode : NecpTlv → List ℕ
encode tlv = le 1 tlv.necp_type ++ le 4 (length tlv.bytes) ++ tlv.bytes

-- The loop over the entries.
abbrev pub append_tlvs : (parameters : List ℕ) → List NecpTlv → List ℕ
append_tlvs parameters [] = parameters
append_tlvs parameters (tlv ∷ tlvs) = append_tlvs (parameters ++ encode tlv) tlvs

abbrev pub necp_client_agent : (fd : ℕ) → NecpClientId → List NecpTlv → NecpCall
necp_client_agent fd client tlvs = record {
  necp_fd = fd;
  action = action_agent;
  client_id = get_necp_client client;
  buffer = filled (append_tlvs [] tlvs);
}

-- The cases of the message NecpClientAction.
pub data NecpRequest : Type 0 where
  add : (bytes : List ℕ) → NecpRequest
  remove : NecpRequest
  copy_parameters : (copyout_size : ℕ) → NecpRequest
  agent : List NecpTlv → NecpRequest
  action_not_set : NecpRequest

unfoldable pub do_necp_client_action : (fd : ℕ) → NecpClientId → NecpRequest → Option NecpCall
do_necp_client_action fd client (add bytes) = some (necp_client_add fd client bytes)
do_necp_client_action fd client remove = some (necp_client_remove fd client)
do_necp_client_action fd client (copy_parameters copyout_size) =
    some (necp_client_copy_parameters fd client copyout_size)
do_necp_client_action fd client (agent tlvs) = some (necp_client_agent fd client tlvs)
do_necp_client_action fd client action_not_set = none
