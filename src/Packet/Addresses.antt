-- ===== src/Packet/Addresses.antt =====
-- The addresses of fuzz/handlers/bsd.cc, with the tests that bsd_types.h makes of them.
use sock_fuzzer.Common.{
  ℕ, Bool, not, ◌&&◌, ◌||◌, List, [], ◌++◌, length, replicate, set, get_elem?, none, some, Outcome,
  ok, stop, assert_failed, ◌>>=◌, if◌then◌else◌, ◌==◌, ◌+◌, ◌*◌, ◌/◌, ◌%◌,
}
use sock_fuzzer.Message.{copy_at}
use sock_fuzzer.Packet.{le, bswap32}

-- The enumeration of fuzz/proto/bsd_types.proto.
pub data In6Addr : Type 0 where
  in6_addr_any in6_addr_loopback in6_addr_real in6_addr_self in6_addr_link_local : In6Addr
  in6_addr_unspecified in6_addr_v4compat in6_addr_v4mapped in6_addr_6to4 : In6Addr
  in6_addr_linklocal in6_addr_sitelocal in6_addr_multicast in6_addr_unique_local : In6Addr
  in6_addr_mc_nodelocal in6_addr_mc_intfacelocal in6_addr_mc_linklocal : In6Addr
  in6_addr_mc_sitelocal in6_addr_mc_orglocal in6_addr_mc_global in6_addr_local_address : In6Addr
  maybe_localhost : In6Addr

-- The byte and the word of four bytes at an offset.
abbrev pub byte : List ℕ → (offset : ℕ) → ℕ
byte bytes offset = elim (get_elem? bytes offset) [ none ↦ 0 | some value ↦ value ]

abbrev pub word : List ℕ → (offset : ℕ) → ℕ
word bytes offset =
    byte bytes offset
    + 256 * byte bytes (offset + 1)
    + 65536 * byte bytes (offset + 2)
    + 16777216 * byte bytes (offset + 3)

abbrev pub is_addr_unspecified : List ℕ → Bool
is_addr_unspecified a = word a 0 == 0 && word a 4 == 0 && word a 8 == 0 && word a 12 == 0

abbrev pub is_addr_loopback : List ℕ → Bool
is_addr_loopback a = word a 0 == 0 && word a 4 == 0 && word a 8 == 0 && word a 12 == bswap32 1

abbrev pub is_addr_v4compat : List ℕ → Bool
is_addr_v4compat a =
    word a 0 == 0
    && word a 4 == 0
    && word a 8 == 0
    && not (word a 12 == 0)
    && not (word a 12 == bswap32 1)

abbrev pub is_addr_v4mapped : List ℕ → Bool
is_addr_v4mapped a = word a 0 == 0 && word a 4 == 0 && word a 8 == bswap32 65535

-- The mask 0xc0.
abbrev pub is_addr_linklocal : List ℕ → Bool
is_addr_linklocal a = byte a 0 == 254 && byte a 1 / 64 * 64 == 128

abbrev pub is_addr_sitelocal : List ℕ → Bool
is_addr_sitelocal a = byte a 0 == 254 && byte a 1 / 64 * 64 == 192

abbrev pub is_addr_multicast : List ℕ → Bool
is_addr_multicast a = byte a 0 == 255

abbrev pub is_addr_unique_local : List ℕ → Bool
is_addr_unique_local a = byte a 0 == 252 || byte a 0 == 253

-- IN6_IS_ADDR_MC_NODELOCAL and the others, for their scope; the mask is 0x0f.
abbrev pub is_addr_mc : (scope : ℕ) → List ℕ → Bool
is_addr_mc scope a = is_addr_multicast a && byte a 1 % 16 == scope

abbrev pub zeros : List ℕ
zeros = replicate 16 0

-- An address, if it passes the assertion.
abbrev pub assert_addr : (List ℕ → Bool) → List ℕ → Outcome (List ℕ)
assert_addr test a = if test a then ok a else stop assert_failed

-- The address whose last byte is the number of an enumeration, cast to 8 bits.
abbrev pub numbered : (addr : ℕ) → List ℕ
numbered addr = set zeros 15 (addr % 256)

-- A multicast address of a scope.
abbrev pub multicast : (scope : ℕ) → List ℕ
multicast scope = set (set zeros 0 255) 1 scope

unfoldable pub get_in6_addr : In6Addr → Outcome (List ℕ)
get_in6_addr in6_addr_self = ok (
    copy_at 0 (le 4 16777216)
      (copy_at 0 (le 4 0) (copy_at 0 (le 4 0) (copy_at 0 (le 4 16810238) zeros))))
get_in6_addr in6_addr_link_local = assert_addr is_addr_linklocal (set (set zeros 0 254) 1 128)
get_in6_addr in6_addr_loopback = assert_addr is_addr_loopback (numbered 1)
get_in6_addr in6_addr_real = ok (numbered 2)
get_in6_addr maybe_localhost = ok (numbered 16777216)
get_in6_addr in6_addr_v4compat = assert_addr is_addr_v4compat (set zeros 12 1)
get_in6_addr in6_addr_v4mapped = assert_addr is_addr_v4mapped (copy_at 8 (le 4 4294901760) zeros)
get_in6_addr in6_addr_6to4 = ok zeros
get_in6_addr in6_addr_linklocal = assert_addr is_addr_linklocal (set (set zeros 0 254) 1 128)
get_in6_addr in6_addr_sitelocal = assert_addr is_addr_sitelocal (set (set zeros 0 254) 1 192)
get_in6_addr in6_addr_multicast = assert_addr is_addr_multicast (set zeros 0 255)
get_in6_addr in6_addr_unique_local = assert_addr is_addr_unique_local (set zeros 0 252)
get_in6_addr in6_addr_mc_nodelocal = assert_addr (is_addr_mc 1) (multicast 1)
get_in6_addr in6_addr_mc_intfacelocal = assert_addr (is_addr_mc 1) (multicast 1)
get_in6_addr in6_addr_mc_linklocal = assert_addr (is_addr_mc 2) (multicast 2)
get_in6_addr in6_addr_mc_sitelocal = assert_addr (is_addr_mc 5) (multicast 5)
get_in6_addr in6_addr_mc_orglocal = assert_addr (is_addr_mc 8) (multicast 8)
get_in6_addr in6_addr_mc_global = assert_addr (is_addr_mc 14) (multicast 14)
get_in6_addr in6_addr_unspecified = assert_addr is_addr_unspecified zeros
get_in6_addr in6_addr_any = assert_addr is_addr_unspecified zeros
get_in6_addr in6_addr_local_address = ok (
    copy_at 14 (le 2 43690) (
      copy_at 12 (le 2 43690) (
        copy_at 10 (le 2 43690)
          (copy_at 8 (le 2 43178) (copy_at 2 (le 2 1) (copy_at 0 (le 2 65152) zeros))))))

pub record SockAddr6 : Type 0 where
  pub port : ℕ
  pub flow_info : ℕ
  pub sin6_addr : In6Addr
  pub sin6_scope_id : ℕ

-- A sockaddr_in6 has 28 bytes, and its family is AF_INET6.
abbrev pub get_sockaddr6 : SockAddr6 → Outcome (List ℕ)
get_sockaddr6 sa6 = do
  addr ← get_in6_addr sa6.sin6_addr
  ok (le 1 28 ++ le 1 30 ++ le 2 sa6.port ++ le 4 sa6.flow_info ++ addr ++ le 4 sa6.sin6_scope_id)

pub data SockAddr : Type 0 where
  sockaddr_generic : (sa_family : ℕ) → (sa_data : List ℕ) → SockAddr
  sockaddr4 : (sin_port sin_addr : ℕ) → SockAddr
  sockaddr6 : SockAddr6 → SockAddr
  sockaddr_not_set : SockAddr

-- A sockaddr_generic has 2 bytes; a sockaddr_in has 16, and its family is AF_INET.
unfoldable pub get_sockaddr : SockAddr → Outcome (List ℕ)
get_sockaddr (sockaddr_generic sa_family sa_data) =
    ok (le 1 (2 + length sa_data) ++ le 1 sa_family ++ sa_data)
get_sockaddr (sockaddr4 sin_port sin_addr) =
    ok (le 1 16 ++ le 1 2 ++ le 2 sin_port ++ le 4 sin_addr ++ replicate 8 0)
get_sockaddr (sockaddr6 sa6) = get_sockaddr6 sa6
get_sockaddr sockaddr_not_set = ok []
