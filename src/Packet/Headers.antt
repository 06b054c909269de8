-- ===== src/Packet/Headers.antt =====
-- The headers of fuzz/handlers/bsd.cc, each as the bytes of its structure.
use sock_fuzzer.Common.{
  ℕ, zero, suc, Bool, true, false, not, List, [], ◌∷◌, ◌++◌, replicate, Outcome, ok, ◌>>=◌, update,
  if◌then◌else◌, ◌+◌, ◌*◌, ◌%◌,
}
use sock_fuzzer.Message.{copy_at}
use sock_fuzzer.Packet.{le, bswap16, bswap32}
use sock_fuzzer.Packet.Addresses.{In6Addr, get_in6_addr}

pub record Ip6Hdr : Type 0 where
  pub ip6_un1_nxt : ℕ
  pub ip6_un1_hlim : ℕ
  pub ip6_src : In6Addr
  pub ip6_dst : In6Addr

-- 40 bytes. The version 0x60 is the first byte of the union whose other member begins with the flow.
unfoldable pub get_ip6_hdr : Ip6Hdr → (expected_size : ℕ) → Outcome (List ℕ)
get_ip6_hdr hdr expected_size = do
  src ← get_in6_addr hdr.ip6_src
  dst ← get_in6_addr hdr.ip6_src
  ok (
      le 1 96
      ++ replicate 3 0
      ++ le 2 (bswap16 expected_size)
      ++ le 1 hdr.ip6_un1_nxt
      ++ le 1 hdr.ip6_un1_hlim
      ++ src
      ++ dst)

pub record IpHdr : Type 0 where
  pub ip_tos : ℕ
  pub ip_id : ℕ
  pub ip_off : ℕ
  pub ip_ttl : ℕ
  pub ip_p : ℕ
  pub ip_src : ℕ
  pub ip_dst : ℕ

-- 20 bytes. The first one has the length 5 in its low half and IPV4 in its high half.
unfoldable pub get_ip_hdr : IpHdr → (expected_size : ℕ) → List ℕ
get_ip_hdr hdr expected_size =
    le 1 (5 + 16 * 4)
    ++ le 1 hdr.ip_tos
    ++ le 2 (bswap16 expected_size)
    ++ le 2 hdr.ip_id
    ++ le 2 hdr.ip_off
    ++ le 1 hdr.ip_ttl
    ++ le 1 hdr.ip_p
    ++ le 2 0
    ++ le 4 hdr.ip_src
    ++ le 4 hdr.ip_dst

-- The flags of the enumeration are single bits of a byte.
pub data TcpFlag : Type 0 where
  th_fin th_syn th_rst th_push th_ack th_urg th_ece th_cwr : TcpFlag

abbrev pub bit_of : TcpFlag → ℕ
bit_of th_fin = 0
bit_of th_syn = 1
bit_of th_rst = 2
bit_of th_push = 3
bit_of th_ack = 4
bit_of th_urg = 5
bit_of th_ece = 6
bit_of th_cwr = 7

-- The bits of th_flags after the loop of exclusive ors.
abbrev pub xor_flags : List TcpFlag → (ℕ → Bool) → ℕ → Bool
xor_flags [] bits = bits
xor_flags (flag ∷ flags) bits =
    xor_flags flags (update bits (bit_of flag) (not (bits (bit_of flag))))

pub record TcpHdr : Type 0 where
  pub th_sport : ℕ
  pub th_dport : ℕ
  pub th_seq : ℕ
  pub th_ack_number : ℕ
  pub th_off : ℕ
  pub th_flags : List TcpFlag
  pub th_win : ℕ
  pub th_urp : ℕ
  pub is_pure_syn : Bool
  pub is_pure_ack : Bool

-- The bits of th_flags, as they are in the end.
unfoldable pub tcp_flags : TcpHdr → ℕ → Bool
tcp_flags hdr =
    let bits = xor_flags hdr.th_flags (λ bit. false) in
    if hdr.is_pure_syn
    then update (update (update bits 2 false) 4 false) 1 true
    else if hdr.is_pure_ack
    then update (update (update bits 2 false) 1 false) 4 true
    else bits

abbrev pub bit : Bool → (value : ℕ) → ℕ
bit on value = if on then value else 0

abbrev pub flag_byte : (ℕ → Bool) → ℕ
flag_byte bits =
    bit (bits 0) 1
    + bit (bits 1) 2
    + bit (bits 2) 4
    + bit (bits 3) 8
    + bit (bits 4) 16
    + bit (bits 5) 32
    + bit (bits 6) 64
    + bit (bits 7) 128

-- 20 bytes. The offset is the high half of a byte.
unfoldable pub get_tcp_hdr : TcpHdr → List ℕ
get_tcp_hdr hdr =
    le 2 hdr.th_sport
    ++ le 2 hdr.th_dport
    ++ le 4 (bswap32 hdr.th_seq)
    ++ le 4 (bswap32 hdr.th_ack_number)
    ++ le 1 (16 * (hdr.th_off % 16))
    ++ le 1 (flag_byte (tcp_flags hdr))
    ++ le 2 hdr.th_win
    ++ le 2 0
    ++ le 2 hdr.th_urp

pub record Ip6Rt0Hdr : Type 0 where
  pub ip6r0_nxt : ℕ
  pub ip6r0_len : ℕ
  pub ip6r0_type : ℕ
  pub ip6r0_segleft : ℕ
  pub ip6r0_reserved : ℕ
  pub ip6r0_slmap : ℕ
  pub ip6r0_addr : List In6Addr

-- The loop over the addresses, from the i-th of the 23 places on, which has `room` places left.
abbrev pub copy_addrs : (room i : ℕ) → List In6Addr → List ℕ → Outcome (List ℕ)
copy_addrs zero i addrs bytes = ok bytes
copy_addrs (suc room) i [] bytes = ok bytes
copy_addrs (suc room) i (addr ∷ addrs) bytes = do
  a ← get_in6_addr addr
  copy_addrs room (i + 1) addrs (copy_at (8 + 16 * i) a bytes)

-- 8 bytes and 23 addresses. The word that is written to the 3 bytes of ip6r0_slmap reaches into the
-- first address.
unfoldable pub get_ip6_route0_hdr : Ip6Rt0Hdr → Outcome (List ℕ)
get_ip6_route0_hdr hdr = copy_addrs 23 0 hdr.ip6r0_addr (
    le 1 hdr.ip6r0_nxt
    ++ le 1 hdr.ip6r0_len
    ++ le 1 hdr.ip6r0_type
    ++ le 1 hdr.ip6r0_segleft
    ++ le 1 hdr.ip6r0_reserved
    ++ le 4 hdr.ip6r0_slmap
    ++ replicate 367 0)
