-- ===== src/Atomic/Tests.antt =====
-- A word that another thread raises in the meantime.
use sock_fuzzer.Common.{◌+◌, ◌≡◌, refl}
use sock_fuzzer.Atomic.{atomic_load_32, atomic_load_64, atomic_store_32, atomic_store_64}

-- A load gives the word from before the yield, a store is seen by the threads that run in it.
accesses :
    (atomic_load_32 (λ w. w + 1) 5 ≡ (5, 6))
    × (atomic_load_64 (λ w. w + 1) 5 ≡ (5, 6))
    × (atomic_store_32 (λ w. w + 1) 7 ≡ 8)
    × (atomic_store_64 (λ w. w + 1) 7 ≡ 8)
unfolding atomic_load_32 atomic_load_64 atomic_store_32 atomic_store_64
accesses = (refl, refl, refl, refl)
