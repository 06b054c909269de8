-- ===== src/Packet/Tests.antt =====
-- A SYN to port 80 with two bytes of data.
use sock_fuzzer.Common.{
  ℕ, true, false, some, List, [], ◌∷◌, length, ok, ◌≡◌, refl, ◌%◌, ◌/◌, ◌^◌, ◌<◌, ◌==◌, Bool, arith,
  get_elem?, Option, replicate,
}
use sock_fuzzer.Packet.Addresses.{In6Addr, SockAddr, sockaddr6, get_in6_addr}
use sock_fuzzer.Packet.Headers.{
  Ip6Hdr, TcpHdr, TcpFlag, tcp_flags, flag_byte, get_tcp_hdr, Ip6Rt0Hdr, get_ip6_route0_hdr,
  get_ip6_hdr,
}
use sock_fuzzer.Packet.Input.{tcp6_packet}
use sock_fuzzer.Packet.Extensions.{
  IfrName, get_icmp6_hdr, get_ip6_route_hdr, get_ip6_frag_hdr, get_ip6_ext, get_in6_addrlifetime_64,
  get_ifr_name,
}
use sock_fuzzer.Packet.Laws.{get_tcp_hdr-flags, IsSent, do_ip_input-IsSent}

abbrev syn : TcpHdr
syn = record {
  th_sport = 1;
  th_dport = 80;
  th_seq = 1;
  th_ack_number = 0;
  th_off = 5;
  th_flags = TcpFlag.th_rst ∷ TcpFlag.th_fin ∷ [];
  th_win = 1;
  th_urp = 0;
  is_pure_syn = true;
  is_pure_ack = false;
}

abbrev to_loopback : Ip6Hdr
to_loopback = record {
  ip6_un1_nxt = 6;
  ip6_un1_hlim = 64;
  ip6_src = In6Addr.in6_addr_loopback;
  ip6_dst = In6Addr.in6_addr_multicast;
}

abbrev link_local : SockAddr
link_local = sockaddr6 (record {
  port = 80;
  flow_info = 0;
  sin6_addr = In6Addr.in6_addr_link_local;
  sin6_scope_id = 1;
})

-- An mbuf has room for 60 bytes.
abbrev get : Bool → Option ℕ
get is_header = some 60

get_tcp_hdr-flags_example :
    (length (get_tcp_hdr syn) ≡ 20)
    × (byte : ℕ) × (get_elem? (get_tcp_hdr syn) 13 ≡ some byte)
    × (byte < 256)
    × ((byte / 2 ^ 1 % 2 == 1) ≡ true)
get_tcp_hdr-flags_example = get_tcp_hdr-flags syn 1 (omega arith)

do_ip_input-IsSent_example : IsSent get 7 (tcp6_packet to_loopback syn (7 ∷ 8 ∷ []))
do_ip_input-IsSent_example = do_ip_input-IsSent get 7 (tcp6_packet to_loopback syn (7 ∷ 8 ∷ []))

-- FIN and SYN.
syn_byte : flag_byte (tcp_flags syn) ≡ 3
unfolding tcp_flags
syn_byte = refl

-- The address with the name SELF is that of the first word's last assignment.
self :
    get_in6_addr In6Addr.in6_addr_self
    ≡ ok (0 ∷ 0 ∷ 0 ∷ 1 ∷ 0 ∷ 0 ∷ 0 ∷ 0 ∷ 0 ∷ 0 ∷ 0 ∷ 0 ∷ 0 ∷ 0 ∷ 0 ∷ 0 ∷ [])
unfolding get_in6_addr
self = refl

-- The destination that is asked for is not used.
same_addresses :
    get_ip6_hdr to_loopback 2
    ≡ get_ip6_hdr (record to_loopback { ip6_dst = In6Addr.in6_addr_real }) 2
unfolding get_ip6_hdr
same_addresses = refl

-- A routing header with more addresses than places.
abbrev crowded : Ip6Rt0Hdr
crowded = record {
  ip6r0_nxt = 6;
  ip6r0_len = 0;
  ip6r0_type = 0;
  ip6r0_segleft = 2;
  ip6r0_reserved = 0;
  ip6r0_slmap = 0;
  ip6r0_addr = replicate 30 In6Addr.in6_addr_real;
}

-- The last byte of the map reaches into the first address.
route :
    (bytes : List ℕ) × (get_ip6_route0_hdr (record {
      ip6r0_nxt = 0;
      ip6r0_len = 0;
      ip6r0_type = 0;
      ip6r0_segleft = 0;
      ip6r0_reserved = 0;
      ip6r0_slmap = 4294967295;
      ip6r0_addr = [];
    })
      ≡ ok bytes)
    × (get_elem? bytes 8 ≡ some 255)
    × (length bytes ≡ 376)
unfolding get_ip6_route0_hdr
route = (_, refl, refl, refl)

echo_request :
    get_icmp6_hdr (record { icmp6_type = 128; icmp6_code = 0; icmp6_dataun = 65538 })
    ≡ 128 ∷ 0 ∷ 0 ∷ 0 ∷ 2 ∷ 0 ∷ 1 ∷ 0 ∷ []
unfolding get_icmp6_hdr
echo_request = refl

-- The fields are cut to 8 bits.
cut_route :
    get_ip6_route_hdr (record { ip6r_nxt = 6; ip6r_len = 256; ip6r_type = 3; ip6r_segleft = 257 })
    ≡ 6 ∷ 0 ∷ 3 ∷ 1 ∷ []
unfolding get_ip6_route_hdr
cut_route = refl

fragment :
    get_ip6_frag_hdr (record { ip6f_nxt = 17; ip6f_reserved = 0; ip6f_offlg = 256; ip6f_ident = 1 })
    ≡ 17 ∷ 0 ∷ 0 ∷ 1 ∷ 1 ∷ 0 ∷ 0 ∷ 0 ∷ []
unfolding get_ip6_frag_hdr
fragment = refl

extension : get_ip6_ext (record { ip6e_nxt = 60; ip6e_len = 1 }) ≡ 60 ∷ 1 ∷ []
unfolding get_ip6_ext
extension = refl

lifetime :
    length (
      get_in6_addrlifetime_64
        (record { ia6t_expire = 1; ia6t_preferred = 2; ia6t_vltime = 3; ia6t_pltime = 4 }))
    ≡ 24
unfolding get_in6_addrlifetime_64
lifetime = refl

-- The rest of the destination is left as it was.
renamed : get_ifr_name IfrName.lo0 (1 ∷ 2 ∷ 3 ∷ 4 ∷ 5 ∷ []) ≡ 108 ∷ 111 ∷ 48 ∷ 0 ∷ 5 ∷ []
unfolding get_ifr_name
renamed = refl
