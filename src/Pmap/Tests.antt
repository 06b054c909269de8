-- ===== src/Pmap/Tests.antt =====
-- The first pages, and the space that they fill.
use sock_fuzzer.Common.{◌≡◌, refl, true, ok}
use sock_fuzzer.Pmap.{pmap_next_page_hi, pmap_virtual_space}

high_page : (pmap_next_page_hi 99999).answer ≡ true
unfolding pmap_next_page_hi
high_page = refl

space : pmap_virtual_space true 4096 ≡ ok (4096, 268439552)
unfolding pmap_virtual_space
space = refl
