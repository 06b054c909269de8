-- ===== src/Packet/Lengths.antt =====
-- On the headers of IPv4 and IPv6 of fuzz/handlers/bsd.cc, which say how long a packet is.
use sock_fuzzer.Common.{
  ℕ, suc, false, some, List, [], ◌∷◌, ◌++◌, length, length-append, ok, ◌>>=◌, ◌≡◌, refl, ap, ◌<◌,
  ◌+◌, ◌/◌, ◌%◌, arith, get_elem?, replicate,
}
use sock_fuzzer.Message.{is_empty}
use sock_fuzzer.Packet.{le, bswap16}
use sock_fuzzer.Packet.Headers.{Ip6Hdr, IpHdr, get_ip6_hdr, get_ip_hdr}
use sock_fuzzer.Packet.Families.{get_in6_addr-ok}

-- A number of two bytes, the high one first.
abbrev pub IsBig : List ℕ → (offset size : ℕ) → Type 0
IsBig header offset size =
    (get_elem? header offset ≡ some (size / 256 % 256))
    × (get_elem? header (suc offset) ≡ some (size % 256))

-- A header of IPv4 says the length of the whole packet, one of IPv6 that of what follows it, each to 16 bits.
abbrev pub IsIpHeader : (payload : List ℕ) → (header : List ℕ) → Type 0
IsIpHeader payload header =
    (length header ≡ 20) × (get_elem? header 0 ≡ some 69) × IsBig header 2 (20 + length payload)

abbrev pub IsIp6Header : (payload : List ℕ) → (header : List ℕ) → Type 0
IsIp6Header payload header =
    (length header ≡ 40) × (get_elem? header 0 ≡ some 96) × IsBig header 4 (length payload)

big :
    (size : ℕ)
    → (some (bswap16 size % 256) ≡ some (size / 256 % 256))
      × (some (bswap16 size / 256 % 256) ≡ some (size % 256))
big size =
    let high : bswap16 size % 256 ≡ size / 256 % 256 = omega arith in
    let low : bswap16 size / 256 % 256 ≡ size % 256 = omega arith in (ap some high, ap some low)

pub get_ip_hdr-IsIpHeader :
    (hdr : IpHdr) (payload : List ℕ) → IsIpHeader payload (get_ip_hdr hdr (20 + length payload))
unfolding get_ip_hdr
get_ip_hdr-IsIpHeader hdr payload = (refl, refl, big (20 + length payload))

pub get_ip6_hdr-IsIp6Header :
    (hdr : Ip6Hdr) (payload : List ℕ)
    → (header : List ℕ) × (get_ip6_hdr hdr (length payload) ≡ ok header)
      × IsIp6Header payload header
unfolding get_ip6_hdr
get_ip6_hdr-IsIp6Header hdr payload =
    let (src, made, size) = get_in6_addr-ok hdr.ip6_src in
    let total : length (src ++ src) ≡ 32 = omega (arith, length-append src src, size) in
    (
      _,
      ap
          (λ o. do
            s ← o
            d ← o
            ok (
                le 1 96
                ++ replicate 3 0
                ++ le 2 (bswap16 (length payload))
                ++ le 1 hdr.ip6_un1_nxt
                ++ le 1 hdr.ip6_un1_hlim
                ++ s
                ++ d))
          made,
      (omega (arith, total), refl, big (length payload)),
    )

pub is_empty-append : (xs ys zs : List ℕ) → 0 < length xs → is_empty (xs ++ ys ++ zs) ≡ false
is_empty-append [] ys zs some_byte = ground arith
is_empty-append (x ∷ xs) ys zs some_byte = refl
