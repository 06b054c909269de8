-- ===== src/Packet/Routing.antt =====
-- On get_ip6_route0_hdr of fuzz/handlers/bsd.cc.
use sock_fuzzer.Common.{
  ℕ, zero, suc, List, [], ◌∷◌, length, ok, ◌>>=◌, ◌≡◌, refl, ap, ◌∙◌, ◌+◌, ◌*◌, replicate, ◌++◌,
  take,
}
use sock_fuzzer.Message.{overwrite, copy_at}
use sock_fuzzer.Packet.{le}
use sock_fuzzer.Packet.Addresses.{In6Addr}
use sock_fuzzer.Packet.Headers.{Ip6Rt0Hdr, copy_addrs, get_ip6_route0_hdr}
use sock_fuzzer.Packet.Families.{get_in6_addr-ok}

length-overwrite : (source buffer : List ℕ) → length (overwrite source buffer) ≡ length buffer
length-overwrite [] buffer = refl
length-overwrite (x ∷ source) [] = refl
length-overwrite (x ∷ source) (y ∷ buffer) = ap suc (length-overwrite source buffer)

length-copy_at :
    (at_byte : ℕ) (source buffer : List ℕ) → length (copy_at at_byte source buffer) ≡ length buffer
length-copy_at zero source buffer = length-overwrite source buffer
length-copy_at (suc at_byte) source [] = refl
length-copy_at (suc at_byte) source (y ∷ buffer) = ap suc (length-copy_at at_byte source buffer)

copy_addrs-length :
    (room i : ℕ) (addrs : List In6Addr) (bytes : List ℕ)
    → (filled : List ℕ) × (copy_addrs room i addrs bytes ≡ ok filled)
      × (length filled ≡ length bytes)
copy_addrs-length zero i addrs bytes = (bytes, refl, refl)
copy_addrs-length (suc room) i [] bytes = (bytes, refl, refl)
copy_addrs-length (suc room) i (addr ∷ addrs) bytes =
    let (a, made, _) = get_in6_addr-ok addr in
    let (filled, rest, same) =
      copy_addrs-length room (i + 1) addrs (copy_at (8 + 16 * i) a bytes) in
    (
      filled,
      ap (λ o. o >>= λ b. copy_addrs room (i + 1) addrs (copy_at (8 + 16 * i) b bytes)) made ∙ rest,
      same ∙ length-copy_at (8 + 16 * i) a bytes,
    )

copy_addrs-take :
    (room i : ℕ) (addrs : List In6Addr) (bytes : List ℕ)
    → copy_addrs room i (take room addrs) bytes ≡ copy_addrs room i addrs bytes
copy_addrs-take zero i addrs bytes = refl
copy_addrs-take (suc room) i [] bytes = refl
copy_addrs-take (suc room) i (addr ∷ addrs) bytes =
    let (a, made, _) = get_in6_addr-ok addr in
    simp made (copy_addrs-take room (i + 1) addrs (copy_at (8 + 16 * i) a bytes))

-- A routing header of type 0 is always made, and has the 376 bytes of its structure, however many
-- addresses are asked for; those past the first 23 make no difference.
pub get_ip6_route0_hdr-length :
    (hdr : Ip6Rt0Hdr)
    → (bytes : List ℕ) × (get_ip6_route0_hdr hdr ≡ ok bytes)
      × (length bytes ≡ 376)
      × (get_ip6_route0_hdr (record hdr { ip6r0_addr = take 23 hdr.ip6r0_addr }) ≡ ok bytes)
unfolding get_ip6_route0_hdr
get_ip6_route0_hdr-length hdr =
    let start =
      le 1 hdr.ip6r0_nxt
      ++ le 1 hdr.ip6r0_len
      ++ le 1 hdr.ip6r0_type
      ++ le 1 hdr.ip6r0_segleft
      ++ le 1 hdr.ip6r0_reserved
      ++ le 4 hdr.ip6r0_slmap
      ++ replicate 367 0 in
    let (bytes, made, same) = copy_addrs-length 23 0 hdr.ip6r0_addr start in
    (bytes, made, same, copy_addrs-take 23 0 hdr.ip6r0_addr start ∙ made)
