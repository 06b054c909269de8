-- ===== src/Packet/Families.antt =====
-- On get_in6_addr and get_sockaddr of fuzz/handlers/bsd.cc.
use sock_fuzzer.Common.{
  ℕ, some, List, ◌∷◌, ◌++◌, length, length-append, ok, ◌>>=◌, ◌≡◌, refl, ap, sym, ◌%◌, arith,
  get_elem?, ◌⊎◌, inl, inr, ◌↔◌,
}
use sock_fuzzer.Packet.{le}
use sock_fuzzer.Packet.Addresses.{
  In6Addr, get_in6_addr, SockAddr, sockaddr_generic, sockaddr4, sockaddr6, sockaddr_not_set,
  get_sockaddr,
}

-- No assertion on an address fails, and an address has 16 bytes.
pub get_in6_addr-ok :
    (addr : In6Addr) → (bytes : List ℕ) × (get_in6_addr addr ≡ ok bytes) × (length bytes ≡ 16)
unfolding get_in6_addr
get_in6_addr-ok In6Addr.in6_addr_any = (_, refl, refl)
get_in6_addr-ok In6Addr.in6_addr_loopback = (_, refl, refl)
get_in6_addr-ok In6Addr.in6_addr_real = (_, refl, refl)
get_in6_addr-ok In6Addr.in6_addr_self = (_, refl, refl)
get_in6_addr-ok In6Addr.in6_addr_link_local = (_, refl, refl)
get_in6_addr-ok In6Addr.in6_addr_unspecified = (_, refl, refl)
get_in6_addr-ok In6Addr.in6_addr_v4compat = (_, refl, refl)
get_in6_addr-ok In6Addr.in6_addr_v4mapped = (_, refl, refl)
get_in6_addr-ok In6Addr.in6_addr_6to4 = (_, refl, refl)
get_in6_addr-ok In6Addr.in6_addr_linklocal = (_, refl, refl)
get_in6_addr-ok In6Addr.in6_addr_sitelocal = (_, refl, refl)
get_in6_addr-ok In6Addr.in6_addr_multicast = (_, refl, refl)
get_in6_addr-ok In6Addr.in6_addr_unique_local = (_, refl, refl)
get_in6_addr-ok In6Addr.in6_addr_mc_nodelocal = (_, refl, refl)
get_in6_addr-ok In6Addr.in6_addr_mc_intfacelocal = (_, refl, refl)
get_in6_addr-ok In6Addr.in6_addr_mc_linklocal = (_, refl, refl)
get_in6_addr-ok In6Addr.in6_addr_mc_sitelocal = (_, refl, refl)
get_in6_addr-ok In6Addr.in6_addr_mc_orglocal = (_, refl, refl)
get_in6_addr-ok In6Addr.in6_addr_mc_global = (_, refl, refl)
get_in6_addr-ok In6Addr.in6_addr_local_address = (_, refl, refl)
get_in6_addr-ok In6Addr.maybe_localhost = (_, refl, refl)

-- The family that an address is marked with: AF_INET, AF_INET6, or what is asked for.
abbrev pub family : SockAddr → ℕ
family (sockaddr_generic sa_family sa_data) = sa_family % 256
family (sockaddr4 sin_port sin_addr) = 2
family (sockaddr6 sa6) = 30
family sockaddr_not_set = 0

-- The bytes begin with their own number, to 8 bits, and with a family.
abbrev pub IsMarked : (sa_family : ℕ) → List ℕ → Type 0
IsMarked sa_family dat =
    (get_elem? dat 0 ≡ some (length dat % 256)) × (get_elem? dat 1 ≡ some sa_family)

-- A socket address is always made. If one is asked for, its first byte is the number of its bytes,
-- to 8 bits, and the second one its family; and otherwise it is empty.
pub get_sockaddr-IsMarked :
    (addr : SockAddr)
    → (dat : List ℕ) × (get_sockaddr addr ≡ ok dat)
      × ((length dat ≡ 0) ⊎ IsMarked (family addr) dat)
      × ((length dat ≡ 0) ↔ (addr ≡ sockaddr_not_set))
unfolding get_sockaddr
get_sockaddr-IsMarked (sockaddr_generic sa_family sa_data) =
    (_, refl, inr (ground arith, refl), (λ e. ground arith, λ e. ground arith))
get_sockaddr-IsMarked (sockaddr4 sin_port sin_addr) =
    (_, refl, inr (refl, refl), (λ e. ground arith, λ e. ground arith))
get_sockaddr-IsMarked (sockaddr6 sa6) =
    let (a, made, size) = get_in6_addr-ok sa6.sin6_addr in
    let total : length
          (28 ∷ 30 ∷ (le 2 sa6.port ++ le 4 sa6.flow_info ++ a ++ le 4 sa6.sin6_scope_id))
        ≡ 28 =
      omega (arith, length-append a (le 4 sa6.sin6_scope_id), size) in
    (
      _,
      ap
          (λ o. o >>= λ x.
            ok (28 ∷ 30 ∷ (le 2 sa6.port ++ le 4 sa6.flow_info ++ x ++ le 4 sa6.sin6_scope_id)))
          made,
      inr (ap (λ n. some (n % 256)) (sym total), refl),
      (λ e. ground (arith, total), λ e. ground arith),
    )
get_sockaddr-IsMarked sockaddr_not_set = (_, refl, inl refl, (λ e. refl, λ e. refl))
