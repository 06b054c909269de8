-- ===== src/Packet/Input.antt =====
-- DoIpInput of fuzz/handlers/bsd.cc: the bytes of a packet, put into an mbuf and handed to the stack. The
-- mbuf is that of Mbuf.antt, which may have room for a part of the bytes only.
use sock_fuzzer.Common.{
  ℕ, Bool, Option, none, some, List, ◌++◌, length, Outcome, ok, stop, assert_failed, ◌>>=◌,
  if◌then◌else◌, ◌==◌, ◌+◌,
}
use sock_fuzzer.Message.{is_empty}
use sock_fuzzer.Mbuf.{Mbuf, get_mbuf_data}
use sock_fuzzer.Packet.Headers.{Ip6Hdr, IpHdr, TcpHdr, get_ip6_hdr, get_ip_hdr, get_tcp_hdr}

pub data Packet : Type 0 where
  tcp_packet : IpHdr → TcpHdr → (payload : List ℕ) → Packet
  tcp6_packet : Ip6Hdr → TcpHdr → (payload : List ℕ) → Packet
  ip4_packet : IpHdr → (payload : List ℕ) → Packet
  ip6_packet : Ip6Hdr → (payload : List ℕ) → Packet
  raw_ip4 raw_ip6 : (payload : List ℕ) → Packet
  packet_not_set : Packet

-- ip_input_wrapper and ip6_input_wrapper, each with the mbuf that it is called on.
pub data Call : Type 0 where
  ip_input_wrapper ip6_input_wrapper : (mbuf : Mbuf) → Call

-- What m_gethdr gives, and the loopback interface, as get_mbuf_data takes them.
module _ (get : Bool → Option ℕ) (lo_ifp : ℕ) where
  abbrev pub deliver : (wrapper : Mbuf → Call) → (packet : List ℕ) → Option Call
  deliver wrapper packet = elim (get_mbuf_data get lo_ifp packet (length packet)) [
    | none ↦ none
    | some mbuf ↦ some (wrapper mbuf)
  ]

  abbrev pub deliver_nonempty : (wrapper : Mbuf → Call) → (packet : List ℕ) → Option Call
  deliver_nonempty wrapper packet = if is_empty packet then none else deliver wrapper packet

  abbrev pub do_tcp_input : IpHdr → TcpHdr → (payload : List ℕ) → Outcome (Option Call)
  do_tcp_input ip_hdr tcp_hdr payload =
      let expected_size : ℕ = 20 + 20 + length payload in
      let packet = get_ip_hdr ip_hdr expected_size ++ get_tcp_hdr tcp_hdr ++ payload in
      if expected_size == length packet
      then ok (deliver_nonempty ip_input_wrapper packet)
      else stop assert_failed

  abbrev pub do_tcp6_input : Ip6Hdr → TcpHdr → (payload : List ℕ) → Outcome (Option Call)
  do_tcp6_input ip6_hdr tcp_hdr payload = do
    header ← get_ip6_hdr ip6_hdr (20 + length payload)
    ok (deliver_nonempty ip6_input_wrapper (header ++ get_tcp_hdr tcp_hdr ++ payload))

  abbrev pub do_ip4_packet : IpHdr → (payload : List ℕ) → Option Call
  do_ip4_packet ip_hdr payload =
      deliver ip_input_wrapper (get_ip_hdr ip_hdr (20 + length payload) ++ payload)

  abbrev pub do_ip6_packet : Ip6Hdr → (payload : List ℕ) → Outcome (Option Call)
  do_ip6_packet ip6_hdr payload = do
    header ← get_ip6_hdr ip6_hdr (length payload)
    ok (deliver ip6_input_wrapper (header ++ payload))

  unfoldable pub do_ip_input : Packet → Outcome (Option Call)
  do_ip_input (tcp_packet ip_hdr tcp_hdr payload) = do_tcp_input ip_hdr tcp_hdr payload
  do_ip_input (tcp6_packet ip6_hdr tcp_hdr payload) = do_tcp6_input ip6_hdr tcp_hdr payload
  do_ip_input (ip4_packet ip_hdr payload) = ok (do_ip4_packet ip_hdr payload)
  do_ip_input (ip6_packet ip6_hdr payload) = do_ip6_packet ip6_hdr payload
  do_ip_input (raw_ip4 payload) = ok (deliver ip_input_wrapper payload)
  do_ip_input (raw_ip6 payload) = ok (deliver ip6_input_wrapper payload)
  do_ip_input packet_not_set = ok none
