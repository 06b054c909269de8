-- ===== src/Mcache/Tests.antt =====
-- A cache of 256-byte mbufs from which three objects are taken and given back.
use sock_fuzzer.Common.{◌+◌, ◌≡◌, refl, false, [], ◌∷◌, length, arith}
use sock_fuzzer.Mcache.{
  Mcache, mcache_create_ext, Allocated, libc_free, aligned_alloc, mbuf_init, mcache_alloc,
  mcache_alloc_ext, mcache_free_ext, alloc_loop,
}
use sock_fuzzer.Mcache.Laws.{newest_first, mcache_free_ext-mcache_alloc_ext}

abbrev mbufs : Mcache
mbufs = mcache_create_ext 256 false false 0

abbrev no_slab : Allocated
no_slab = record { calls = []; num = 0; list = 0; links = λ n. 0 }

mcache_free_ext-mcache_alloc_ext_example :
    let a = mcache_alloc_ext mbufs no_slab (λ i. 1000 + i) 2 (λ n. 0) in
    (a.num ≡ 2)
    × (mcache_free_ext mbufs 3 a.list a.links ≡ (libc_free 1001 ∷ libc_free 1000 ∷ [], 0))
    × (length (newest_first (λ i. 1000 + i) 2 0 []) ≡ 2)
mcache_free_ext-mcache_alloc_ext_example =
    mcache_free_ext-mcache_alloc_ext mbufs no_slab (λ i. 1000 + i) 2 3 (λ n. 0) refl refl
      ((λ e. omega arith), tt, ((λ e. omega arith), ((λ e. omega arith), tt), tt)) (omega arith)

-- An mbuf is aligned to its size and initialised.
one_mbuf :
    (mcache_alloc mbufs no_slab (λ i. 4096) (λ n. 0)).calls
    ≡ aligned_alloc 256 256 4096 ∷ mbuf_init 4096 ∷ []
unfolding mcache_alloc mcache_alloc_ext alloc_loop
one_mbuf = refl
