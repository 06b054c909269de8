-- ===== src/Mbuf.antt =====
-- mbuf_create of fuzz/xnu/bsd/fakes/mbuf.c and get_mbuf_data of fuzz/xnu/bsd/api/bsd_backend.c, which
-- put bytes into a new mbuf.
pub mod Laws
mod Tests
use sock_fuzzer.Common.{
  ℕ, Bool, true, false, Option, none, some, List, [], ◌∷◌, if◌then◌else◌, ltb, take,
}

-- m_len, the bytes at m_data up to it, and the interface that the packet header names, if any.
pub record Mbuf : Type 0 where
  pub len : ℕ
  pub bytes : List ℕ
  pub rcvif : Option ℕ

-- `get is_header` is what m_gethdr, or m_get, gives: the m_len of a new mbuf, or none for NULL.
unfoldable pub mbuf_create :
    (get : Bool → Option ℕ) → (bytes : List ℕ) → (size : ℕ) → (is_header : Bool) → Option Mbuf
mbuf_create get bytes size is_header = elim (get is_header) [
  | none ↦ none
  | some m_len ↦
      (let copied = if ltb m_len size then m_len else size in
        some (record { len = copied; bytes = take copied bytes; rcvif = none }))
]

-- `lo_ifp` is the loopback interface.
unfoldable pub get_mbuf_data :
    (get : Bool → Option ℕ) → (lo_ifp : ℕ) → (bytes : List ℕ) → (size : ℕ) → Option Mbuf
get_mbuf_data get lo_ifp bytes size = elim (mbuf_create get bytes size true) [
  | none ↦ none
  | some m ↦ some (record m { rcvif = some lo_ifp })
]
