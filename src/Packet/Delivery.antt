-- ===== src/Packet/Delivery.antt =====
-- On what DoIpInput of fuzz/handlers/bsd.cc delivers, by the kind of packet.
use sock_fuzzer.Common.{
  ℕ, Bool, false, Option, none, some, List, ◌++◌, append_assoc, length, ok, ◌>>=◌, ◌≡◌, refl, ap,
  sym, ◌∙◌, if◌then◌else◌, ◌+◌, arith, leb, true, take, ==_iff, subst,
}
use sock_fuzzer.Message.{is_empty}
use sock_fuzzer.Mbuf.{Mbuf, mbuf_create, get_mbuf_data}
use sock_fuzzer.Packet.Headers.{get_ip6_hdr, get_ip_hdr, get_tcp_hdr}
use sock_fuzzer.Packet.Input.{
  Packet, tcp_packet, tcp6_packet, ip4_packet, ip6_packet, raw_ip4, raw_ip6, packet_not_set, Call,
  ip_input_wrapper, ip6_input_wrapper, deliver, deliver_nonempty, do_ip_input,
}
use sock_fuzzer.Packet.Lengths.{
  IsIpHeader, IsIp6Header, get_ip_hdr-IsIpHeader, get_ip6_hdr-IsIp6Header, is_empty-append,
}

-- What the stack is handed for the bytes of a packet: nothing where m_gethdr gives no mbuf, and otherwise
-- an mbuf from the loopback interface with as many of the bytes as m_len has room for.
abbrev pub handed :
    (get : Bool → Option ℕ)
    → (lo_ifp : ℕ) → (wrapper : Mbuf → Call) → (packet : List ℕ) → Option Call
handed get lo_ifp wrapper packet = elim (get true) [
  | none ↦ none
  | some m_len ↦
      (let n = if leb (length packet) m_len then length packet else m_len in
        some (wrapper (record { len = n; bytes = take n packet; rcvif = some lo_ifp })))
]

pub deliver-handed :
    (get : Bool → Option ℕ) (lo_ifp : ℕ) (wrapper : Mbuf → Call) (packet : List ℕ)
    → deliver get lo_ifp wrapper packet ≡ handed get lo_ifp wrapper packet
unfolding get_mbuf_data mbuf_create
deliver-handed get lo_ifp wrapper packet = ground arith

-- What is delivered for each kind of packet.
abbrev pub IsDelivered : (get : Bool → Option ℕ) → (lo_ifp : ℕ) → Packet → Type 0
IsDelivered get lo_ifp (tcp_packet ip tcp payload) =
    (header : List ℕ) × (do_ip_input get lo_ifp (tcp_packet ip tcp payload)
      ≡ ok (deliver get lo_ifp ip_input_wrapper (header ++ (get_tcp_hdr tcp ++ payload))))
    × IsIpHeader (get_tcp_hdr tcp ++ payload) header
IsDelivered get lo_ifp (tcp6_packet ip6 tcp payload) =
    (header : List ℕ) × (do_ip_input get lo_ifp (tcp6_packet ip6 tcp payload)
      ≡ ok (deliver get lo_ifp ip6_input_wrapper (header ++ (get_tcp_hdr tcp ++ payload))))
    × IsIp6Header (get_tcp_hdr tcp ++ payload) header
IsDelivered get lo_ifp (ip4_packet ip payload) =
    (header : List ℕ) × (do_ip_input get lo_ifp (ip4_packet ip payload)
      ≡ ok (deliver get lo_ifp ip_input_wrapper (header ++ payload)))
    × IsIpHeader payload header
IsDelivered get lo_ifp (ip6_packet ip6 payload) =
    (header : List ℕ) × (do_ip_input get lo_ifp (ip6_packet ip6 payload)
      ≡ ok (deliver get lo_ifp ip6_input_wrapper (header ++ payload)))
    × IsIp6Header payload header
IsDelivered get lo_ifp (raw_ip4 payload) =
    do_ip_input get lo_ifp (raw_ip4 payload) ≡ ok (deliver get lo_ifp ip_input_wrapper payload)
IsDelivered get lo_ifp (raw_ip6 payload) =
    do_ip_input get lo_ifp (raw_ip6 payload) ≡ ok (deliver get lo_ifp ip6_input_wrapper payload)
IsDelivered get lo_ifp packet_not_set = do_ip_input get lo_ifp packet_not_set ≡ ok none

pub do_ip_input-IsDelivered :
    (get : Bool → Option ℕ) (lo_ifp : ℕ) (packet : Packet) → IsDelivered get lo_ifp packet
unfolding do_ip_input get_ip_hdr get_tcp_hdr
do_ip_input-IsDelivered get lo_ifp (tcp_packet ip tcp payload) =
    let n : ℕ = 20 + 20 + length payload in
    let size : n ≡ length (get_ip_hdr ip n ++ get_tcp_hdr tcp ++ payload) = omega arith in
    let same : n ≡ 20 + length (get_tcp_hdr tcp ++ payload) = omega arith in
    (
      get_ip_hdr ip n,
      rw ((==_iff n (length (get_ip_hdr ip n ++ get_tcp_hdr tcp ++ payload))).1 size) refl,
      subst (λ m. IsIpHeader (get_tcp_hdr tcp ++ payload) (get_ip_hdr ip m)) (sym same)
          (get_ip_hdr-IsIpHeader ip (get_tcp_hdr tcp ++ payload)),
    )
do_ip_input-IsDelivered get lo_ifp (tcp6_packet ip6 tcp payload) =
    let (header, made, says) = get_ip6_hdr-IsIp6Header ip6 (get_tcp_hdr tcp ++ payload) in
    let same : 20 + length payload ≡ length (get_tcp_hdr tcp ++ payload) = omega arith in
    let made' : get_ip6_hdr ip6 (20 + length payload) ≡ ok header =
      ap (get_ip6_hdr ip6) same ∙ made in
    let full : is_empty (header ++ get_tcp_hdr tcp ++ payload) ≡ false =
      is_empty-append header (get_tcp_hdr tcp) payload (omega (arith, says.0)) in
    let wrapper : Mbuf → Call = λ mbuf. ip6_input_wrapper mbuf in
    let sent : List ℕ → Option Call = deliver get lo_ifp wrapper in
    (
      header,
      ap (λ o. do h ← o; ok (deliver_nonempty get lo_ifp wrapper (h ++ get_tcp_hdr tcp ++ payload)))
            made'
          ∙ ap (λ b. ok (if b then none else sent (header ++ get_tcp_hdr tcp ++ payload))) full
          ∙ ap (λ packet. ok (sent packet)) (append_assoc header (get_tcp_hdr tcp) payload),
      says,
    )
do_ip_input-IsDelivered get lo_ifp (ip4_packet ip payload) =
    (get_ip_hdr ip (20 + length payload), refl, get_ip_hdr-IsIpHeader ip payload)
do_ip_input-IsDelivered get lo_ifp (ip6_packet ip6 payload) =
    let (header, made, says) = get_ip6_hdr-IsIp6Header ip6 payload in
    (
      header,
      ap (λ o. o >>= λ h. ok (deliver get lo_ifp ip6_input_wrapper (h ++ payload))) made,
      says,
    )
do_ip_input-IsDelivered get lo_ifp (raw_ip4 payload) = refl
do_ip_input-IsDelivered get lo_ifp (raw_ip6 payload) = refl
do_ip_input-IsDelivered get lo_ifp packet_not_set = refl
