-- ===== src/Mbuf/Tests.antt =====
-- Four bytes into an mbuf with room for two.
use sock_fuzzer.Common.{◌≡◌, refl, true, none, some, [], ◌∷◌}
use sock_fuzzer.Mbuf.{mbuf_create}

-- A new mbuf of length 0, as MBUF_INIT makes it, stays empty.
empty_packet :
    mbuf_create (λ h. some 0) (1 ∷ 2 ∷ []) 2 true
    ≡ some (record { len = 0; bytes = []; rcvif = none })
unfolding mbuf_create
empty_packet = refl
