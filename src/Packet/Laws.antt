-- ===== src/Packet/Laws.antt =====
-- On the flags of TCP headers and the input of packets of fuzz/handlers/bsd.cc.
use sock_fuzzer.Common.{
  ℕ, zero, suc, Bool, true, false, not, ◌*◌, ◌≤◌, Option, none, some, List, [], ◌∷◌, ◌++◌, length,
  ok, ◌≡◌, refl, ap, ◌∙◌, if◌then◌else◌, ◌==◌, ◌<◌, ◌+◌, ◌/◌, ◌%◌, ◌^◌, arith, Outcome, get_elem?,
  update, ◌||◌, ◌&&◌,
}
use native.Mathlib.Nat.{mod-eq_of_lt, add-mul-div_left, div-eq_of_lt}
use sock_fuzzer.Mbuf.{Mbuf}
use sock_fuzzer.Packet.Headers.{
  TcpHdr, TcpFlag, bit_of, xor_flags, tcp_flags, flag_byte, bit, get_tcp_hdr,
}
use sock_fuzzer.Packet.Input.{
  Packet, tcp_packet, tcp6_packet, ip4_packet, ip6_packet, raw_ip4, raw_ip6, packet_not_set, Call,
  ip_input_wrapper, ip6_input_wrapper, deliver, do_ip_input,
}
use sock_fuzzer.Packet.Lengths.{IsIpHeader, IsIp6Header}
use sock_fuzzer.Packet.Delivery.{handed, IsDelivered, deliver-handed, do_ip_input-IsDelivered}

-- How often a bit is among the flags.
abbrev pub count : (bit : ℕ) → List TcpFlag → ℕ
count bit [] = 0
count bit (flag ∷ flags) = if bit_of flag == bit then 1 + count bit flags else count bit flags

xor_flags-count :
    (flags : List TcpFlag) (bits : ℕ → Bool) (bit : ℕ)
    → xor_flags flags bits bit ≡ (if count bit flags % 2 == 1 then not (bits bit) else bits bit)
xor_flags-count [] bits bit = refl
xor_flags-count (flag ∷ flags) bits bit =
    let flipped = update bits (bit_of flag) (not (bits (bit_of flag))) in
    ground (arith, xor_flags-count flags flipped bit)

bit_scaled : (b : Bool) (value : ℕ) → (bit b value ≡ value * bit b 1) × (bit b 1 ≤ 1)
bit_scaled true value = (omega arith, omega arith)
bit_scaled false value = (omega arith, omega arith)

bit_one : (b : Bool) (n : ℕ) → n ≡ bit b 1 → (n == 1) ≡ b
bit_one true n e = rw e refl
bit_one false n e = rw e refl

-- A binary digit between those below and those above it.
digit_at : (c low x high : ℕ) → 0 < c → low < c → x ≤ 1 → (low + c * (x + 2 * high)) / c % 2 ≡ x
digit_at c low x high positive below small =
    let shifted : (low + c * (x + 2 * high)) / c ≡ low / c + (x + 2 * high) =
      add-mul-div_left low (x + 2 * high) positive in
    rw (shifted, div-eq_of_lt below) (omega arith)

flag_byte-bit :
    (bits : ℕ → Bool) (k : ℕ)
    → k < 8
    → (flag_byte bits < 256) × ((flag_byte bits / 2 ^ k % 2 == 1) ≡ bits k)
flag_byte-bit bits k h = (fits, digit k h)
  where
    x : ℕ → ℕ
    x m = bit (bits m) 1

    at_most : (m : ℕ) → x m ≤ 1
    at_most m = (bit_scaled (bits m) 1).1

    scaled : (m value : ℕ) → bit (bits m) value ≡ value * x m
    scaled m value = (bit_scaled (bits m) value).0

    weights :
        flag_byte bits
        ≡ x 0 + 2 * x 1 + 4 * x 2 + 8 * x 3 + 16 * x 4 + 32 * x 5 + 64 * x 6 + 128 * x 7
    weights = omega (
      arith,
      scaled 1 2,
      scaled 2 4,
      scaled 3 8,
      scaled 4 16,
      scaled 5 32,
      scaled 6 64,
      scaled 7 128,
    )

    fits : flag_byte bits < 256
    fits = omega (
      arith,
      weights,
      at_most 0,
      at_most 1,
      at_most 2,
      at_most 3,
      at_most 4,
      at_most 5,
      at_most 6,
      at_most 7,
    )

    place :
        (m c low high : ℕ)
        → 0 < c
        → low < c
        → flag_byte bits ≡ low + c * (x m + 2 * high)
        → (flag_byte bits / c % 2 == 1) ≡ bits m
    place m c low high positive below parts =
        bit_one (bits m) _
          (ap (λ byte. byte / c % 2) parts ∙ digit_at c low (x m) high positive below (at_most m))

    digit : (m : ℕ) → m < 8 → (flag_byte bits / 2 ^ m % 2 == 1) ≡ bits m
    digit zero less =
        place 0 1 (0) (x 1 + 2 * x 2 + 4 * x 3 + 8 * x 4 + 16 * x 5 + 32 * x 6 + 64 * x 7)
          (omega arith) (omega arith) (omega (arith, weights))
    digit (suc zero) less =
        place 1 2 (x 0) (x 2 + 2 * x 3 + 4 * x 4 + 8 * x 5 + 16 * x 6 + 32 * x 7) (omega arith)
          (omega (arith, at_most 0)) (omega (arith, weights))
    digit (suc (suc zero)) less =
        place 2 4 (x 0 + 2 * x 1) (x 3 + 2 * x 4 + 4 * x 5 + 8 * x 6 + 16 * x 7) (omega arith)
          (omega (arith, at_most 0, at_most 1)) (omega (arith, weights))
    digit (suc (suc (suc zero))) less =
        place 3 8 (x 0 + 2 * x 1 + 4 * x 2) (x 4 + 2 * x 5 + 4 * x 6 + 8 * x 7) (omega arith)
          (omega (arith, at_most 0, at_most 1, at_most 2)) (omega (arith, weights))
    digit (suc (suc (suc (suc zero)))) less =
        place 4 16 (x 0 + 2 * x 1 + 4 * x 2 + 8 * x 3) (x 5 + 2 * x 6 + 4 * x 7) (omega arith)
          (omega (arith, at_most 0, at_most 1, at_most 2, at_most 3)) (omega (arith, weights))
    digit (suc (suc (suc (suc (suc zero))))) less =
        place 5 32 (x 0 + 2 * x 1 + 4 * x 2 + 8 * x 3 + 16 * x 4) (x 6 + 2 * x 7) (omega arith)
          (omega (arith, at_most 0, at_most 1, at_most 2, at_most 3, at_most 4))
          (omega (arith, weights))
    digit (suc (suc (suc (suc (suc (suc zero)))))) less =
        place 6 64 (x 0 + 2 * x 1 + 4 * x 2 + 8 * x 3 + 16 * x 4 + 32 * x 5) (x 7) (omega arith)
          (omega (arith, at_most 0, at_most 1, at_most 2, at_most 3, at_most 4, at_most 5))
          (omega (arith, weights))
    digit (suc (suc (suc (suc (suc (suc (suc zero))))))) less =
        place 7 128 (x 0 + 2 * x 1 + 4 * x 2 + 8 * x 3 + 16 * x 4 + 32 * x 5 + 64 * x 6) (0)
          (omega arith)
          (omega
            (arith, at_most 0, at_most 1, at_most 2, at_most 3, at_most 4, at_most 5, at_most 6))
          (omega (arith, weights))
    digit (suc (suc (suc (suc (suc (suc (suc (suc m)))))))) less = absurd (omega arith)

tcp_flags-count :
    (hdr : TcpHdr) (bit : ℕ)
    → let pure = hdr.is_pure_syn || hdr.is_pure_ack in
      tcp_flags hdr bit ≡ (
        if pure && (bit == 1)
        then hdr.is_pure_syn
        else if pure && (bit == 2)
        then false
        else if pure && (bit == 4)
        then not hdr.is_pure_syn
        else count bit hdr.th_flags % 2 == 1)
unfolding tcp_flags
tcp_flags-count hdr bit = ground (arith, xor_flags-count hdr.th_flags (λ b. false) bit)

-- A TCP header has 20 bytes, and the one at 13 has its flags as bits: FIN is bit 0, then come SYN, RST, PUSH,
-- ACK, URG, ECE and CWR. In a pure SYN the bit of SYN is set and those of RST and ACK are clear, else in a
-- pure ACK the bit of ACK is set and those of RST and SYN are clear. A bit that these do not decide is
-- set exactly if its flag is in the list an odd number of times.
pub get_tcp_hdr-flags :
    (hdr : TcpHdr) (bit : ℕ)
    → bit < 8
    → let pure = hdr.is_pure_syn || hdr.is_pure_ack in
      (length (get_tcp_hdr hdr) ≡ 20)
      × (byte : ℕ) × (get_elem? (get_tcp_hdr hdr) 13 ≡ some byte)
      × (byte < 256)
      × ((byte / 2 ^ bit % 2 == 1) ≡ (
          if pure && (bit == 1)
          then hdr.is_pure_syn
          else if pure && (bit == 2)
          then false
          else if pure && (bit == 4)
          then not hdr.is_pure_syn
          else count bit hdr.th_flags % 2 == 1))
unfolding get_tcp_hdr
get_tcp_hdr-flags hdr bit small =
    let (fits, shown) = flag_byte-bit (tcp_flags hdr) bit small in
    let whole : flag_byte (tcp_flags hdr) % 256 ≡ flag_byte (tcp_flags hdr) = mod-eq_of_lt fits in
    (refl, flag_byte (tcp_flags hdr), ap some whole, fits, shown ∙ tcp_flags-count hdr bit)

-- What a packet becomes, for each kind of packet: with IPv4 or IPv6, a header that says its length,
-- then the TCP header if there is one, then the data; for a raw packet the data; else nothing.
abbrev pub IsSent : (get : Bool → Option ℕ) → (lo_ifp : ℕ) → Packet → Type 0
IsSent get lo_ifp (tcp_packet ip tcp payload) =
    (header : List ℕ) × (do_ip_input get lo_ifp (tcp_packet ip tcp payload)
      ≡ ok (handed get lo_ifp ip_input_wrapper (header ++ (get_tcp_hdr tcp ++ payload))))
    × IsIpHeader (get_tcp_hdr tcp ++ payload) header
IsSent get lo_ifp (tcp6_packet ip6 tcp payload) =
    (header : List ℕ) × (do_ip_input get lo_ifp (tcp6_packet ip6 tcp payload)
      ≡ ok (handed get lo_ifp ip6_input_wrapper (header ++ (get_tcp_hdr tcp ++ payload))))
    × IsIp6Header (get_tcp_hdr tcp ++ payload) header
IsSent get lo_ifp (ip4_packet ip payload) =
    (header : List ℕ) × (do_ip_input get lo_ifp (ip4_packet ip payload)
      ≡ ok (handed get lo_ifp ip_input_wrapper (header ++ payload)))
    × IsIpHeader payload header
IsSent get lo_ifp (ip6_packet ip6 payload) =
    (header : List ℕ) × (do_ip_input get lo_ifp (ip6_packet ip6 payload)
      ≡ ok (handed get lo_ifp ip6_input_wrapper (header ++ payload)))
    × IsIp6Header payload header
IsSent get lo_ifp (raw_ip4 payload) =
    do_ip_input get lo_ifp (raw_ip4 payload) ≡ ok (handed get lo_ifp ip_input_wrapper payload)
IsSent get lo_ifp (raw_ip6 payload) =
    do_ip_input get lo_ifp (raw_ip6 payload) ≡ ok (handed get lo_ifp ip6_input_wrapper payload)
IsSent get lo_ifp packet_not_set = do_ip_input get lo_ifp packet_not_set ≡ ok none

-- Input of a packet never fails an assertion, and hands the stack of its version one mbuf, if m_gethdr
-- gives one, and nothing if not. The packet is a header that says the length to 16 bits (of the whole
-- packet for IPv4, of what follows the header for IPv6), the TCP header if there is one, and the data; a
-- raw packet is the data. The mbuf comes from the loopback interface and has the bytes of the packet up to
-- the m_len that it has when it is made: a longer packet is cut off there.
pub do_ip_input-IsSent :
    (get : Bool → Option ℕ) (lo_ifp : ℕ) (packet : Packet) → IsSent get lo_ifp packet
do_ip_input-IsSent get lo_ifp packet = by_kind packet (do_ip_input-IsDelivered get lo_ifp packet)
  where
    sent :
        (o : Outcome (Option Call)) (wrapper : Mbuf → Call) (bytes : List ℕ)
        → o ≡ ok (deliver get lo_ifp wrapper bytes)
        → o ≡ ok (handed get lo_ifp wrapper bytes)
    sent o wrapper bytes e = e ∙ ap ok (deliver-handed get lo_ifp wrapper bytes)

    by_kind : (p : Packet) → IsDelivered get lo_ifp p → IsSent get lo_ifp p
    by_kind (tcp_packet ip tcp payload) (header, e, says) =
        (header, sent _ ip_input_wrapper _ e, says)
    by_kind (tcp6_packet ip6 tcp payload) (header, e, says) =
        (header, sent _ ip6_input_wrapper _ e, says)
    by_kind (ip4_packet ip payload) (header, e, says) = (header, sent _ ip_input_wrapper _ e, says)
    by_kind (ip6_packet ip6 payload) (header, e, says) =
        (header, sent _ ip6_input_wrapper _ e, says)
    by_kind (raw_ip4 payload) e = sent _ ip_input_wrapper _ e
    by_kind (raw_ip6 payload) e = sent _ ip6_input_wrapper _ e
    by_kind packet_not_set e = e
