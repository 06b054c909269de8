-- ===== src/Mbuf/Laws.antt =====
-- On mbuf_create and get_mbuf_data.
use sock_fuzzer.Common.{
  ℕ, ◌≤◌, ◌≡◌, refl, Bool, true, Option, some, List, length, if◌then◌else◌, ltb, take, arith,
  length-take,
}
use sock_fuzzer.Mbuf.{Mbuf, mbuf_create, get_mbuf_data}

-- Of data of at least the given size, an mbuf that XNU gives with length `m_len` gets at most so
-- many bytes: they are the first ones of the data, and none at all if `m_len` is 0. The packet
-- seems to come from the loopback interface.
pub get_mbuf_data-bounded :
    (get : Bool → Option ℕ) (lo_ifp : ℕ) (bytes : List ℕ) (size m_len : ℕ)
    → get true ≡ some m_len
    → size ≤ length bytes
    → (m : Mbuf) × (get_mbuf_data get lo_ifp bytes size ≡ some m)
      × (m.bytes ≡ take m.len bytes)
      × (length m.bytes ≡ m.len)
      × (m.len ≤ m_len)
      × (m.len ≤ size)
      × (m.rcvif ≡ some lo_ifp)
unfolding get_mbuf_data mbuf_create
get_mbuf_data-bounded get lo_ifp bytes size m_len e h =
    let copied = if ltb m_len size then m_len else size in
    (
      record { len = copied; bytes = take copied bytes; rcvif = some lo_ifp },
      rw (get_mbuf_data, mbuf_create, e) refl,
      refl,
      length-take copied bytes (ground arith),
      ground arith,
      ground arith,
      refl,
    )
