-- ===== src/Packet/Extensions.antt =====
-- The smaller headers of fuzz/handlers/bsd.cc, each as the bytes of its structure.
use sock_fuzzer.Common.{ℕ, List, [], ◌∷◌, ◌++◌}
use sock_fuzzer.Message.{overwrite}
use sock_fuzzer.Packet.{le}

pub record Icmp6Hdr : Type 0 where
  pub icmp6_type : ℕ
  pub icmp6_code : ℕ
  pub icmp6_dataun : ℕ

unfoldable pub get_icmp6_hdr : Icmp6Hdr → List ℕ
get_icmp6_hdr hdr = le 1 hdr.icmp6_type ++ le 1 hdr.icmp6_code ++ le 2 0 ++ le 4 hdr.icmp6_dataun

pub record Ip6RtHdr : Type 0 where
  pub ip6r_nxt : ℕ
  pub ip6r_len : ℕ
  pub ip6r_type : ℕ
  pub ip6r_segleft : ℕ

unfoldable pub get_ip6_route_hdr : Ip6RtHdr → List ℕ
get_ip6_route_hdr hdr =
    le 1 hdr.ip6r_nxt ++ le 1 hdr.ip6r_len ++ le 1 hdr.ip6r_type ++ le 1 hdr.ip6r_segleft

pub record Ip6FragHdr : Type 0 where
  pub ip6f_nxt : ℕ
  pub ip6f_reserved : ℕ
  pub ip6f_offlg : ℕ
  pub ip6f_ident : ℕ

unfoldable pub get_ip6_frag_hdr : Ip6FragHdr → List ℕ
get_ip6_frag_hdr hdr =
    le 1 hdr.ip6f_nxt ++ le 1 hdr.ip6f_reserved ++ le 2 hdr.ip6f_offlg ++ le 4 hdr.ip6f_ident

pub record Ip6Ext : Type 0 where
  pub ip6e_nxt : ℕ
  pub ip6e_len : ℕ

unfoldable pub get_ip6_ext : Ip6Ext → List ℕ
get_ip6_ext hdr = le 1 hdr.ip6e_nxt ++ le 1 hdr.ip6e_len

pub record In6AddrLifetime : Type 0 where
  pub ia6t_expire : ℕ
  pub ia6t_preferred : ℕ
  pub ia6t_vltime : ℕ
  pub ia6t_pltime : ℕ

unfoldable pub get_in6_addrlifetime_64 : In6AddrLifetime → List ℕ
get_in6_addrlifetime_64 msg =
    le 8 msg.ia6t_expire ++ le 8 msg.ia6t_preferred ++ le 4 msg.ia6t_vltime ++ le 4 msg.ia6t_pltime

pub data IfrName : Type 0 where
  lo0 stf0 ipsec0 utun0 : IfrName

-- The characters of a name, with the zero that ends it.
abbrev pub characters : IfrName → List ℕ
characters lo0 = 108 ∷ 111 ∷ 48 ∷ 0 ∷ []
characters stf0 = 115 ∷ 116 ∷ 102 ∷ 48 ∷ 0 ∷ []
characters ipsec0 = 105 ∷ 112 ∷ 115 ∷ 101 ∷ 99 ∷ 48 ∷ 0 ∷ []
characters utun0 = 117 ∷ 116 ∷ 117 ∷ 110 ∷ 48 ∷ 0 ∷ []

unfoldable pub get_ifr_name : IfrName → (dest : List ℕ) → List ℕ
get_ifr_name name dest = overwrite (characters name) dest
