-- ===== src/Zone/Arena/Tests.antt =====
-- Memory for mbufs, given out three times.
use sock_fuzzer.Common.{◌≡◌, refl, [], ◌∷◌, arith}
use sock_fuzzer.Zone.Arena.{memory, failed, first_arena, kmem_mb_alloc}
use sock_fuzzer.Zone.Arena.Laws.{serve, Apart, kmem_mb_alloc-Apart}

kmem_mb_alloc-Apart_example :
    let (pieces, last) = serve (8192 ∷ 4096 ∷ 12288 ∷ []) (memory 65536) first_arena in
    (last.mbutl ≡ 65536) × (last.embutl ≡ 268496896) × Apart last.mbutl last.embutl pieces
kmem_mb_alloc-Apart_example = kmem_mb_alloc-Apart 8192 (4096 ∷ 12288 ∷ []) 65536 refl (omega arith)

no_memory : kmem_mb_alloc 4096 (failed 12) first_arena ≡ (0, 12, first_arena)
unfolding kmem_mb_alloc
no_memory = refl

-- A request for less than a page takes none: the next one gets the same address.
small_requests :
    (serve (2048 ∷ 2048 ∷ []) (memory 65536) first_arena).0 ≡ (65536, 2048) ∷ (65536, 2048) ∷ []
unfolding kmem_mb_alloc
small_requests = refl
