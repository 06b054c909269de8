-- ===== src/Pmap/Laws.antt =====
-- On the page counter of fuzz/xnu/osfmk/fakes/pmap.c.
use sock_fuzzer.Common.{
  ℕ, zero, suc, ◌+◌, ◌<◌, ◌≡◌, ◌↔◌, refl, ap, true, false, List, [], ◌∷◌, length, if◌then◌else◌,
  leb, arith,
}
use sock_fuzzer.Pmap.{num_pages, pmap_next_page, pmap_next_page_large, pmap_free_pages}

-- The pages that repeated calls of pmap_next_page give until one answers false, for at most `rounds`
-- calls.
unfoldable pub pages_given : (rounds next_page : ℕ) → List ℕ
pages_given zero next_page = []
pages_given (suc n) next_page =
    let page = pmap_next_page next_page in
    let rest = pages_given n page.next_page in if page.answer then page.number ∷ rest else []

pages_given-count : (d n k : ℕ) → k + d ≡ suc num_pages → d < n → length (pages_given n k) ≡ d
unfolding pages_given pmap_next_page
pages_given-count d zero k e lt = absurd (omega arith)
pages_given-count zero (suc n) k e lt =
    let over : leb k num_pages ≡ false = ground arith in rw over refl
pages_given-count (suc d) (suc n) k e lt =
    let more : leb k num_pages ≡ true = ground arith in
    rw more (ap suc (pages_given-count d n (k + 1) (omega arith) (omega arith)))

-- From the start, pmap_next_page gives one page more than pmap_free_pages announces.
pub pages_given-pmap_free_pages :
    (rounds : ℕ) → suc num_pages < rounds → length (pages_given rounds 0) ≡ suc pmap_free_pages
unfolding pmap_free_pages
pages_given-pmap_free_pages rounds h = pages_given-count (suc num_pages) rounds 0 (omega arith) h

-- Read as a kern_return_t, the answer of pmap_next_page_large is KERN_SUCCESS, 0, exactly where
-- pmap_next_page says that there is no page.
pub pmap_next_page_large-inverted :
    (next_page : ℕ)
    → ((pmap_next_page_large next_page).1 ≡ 0) ↔ ((pmap_next_page next_page).answer ≡ false)
unfolding pmap_next_page_large pmap_next_page
pmap_next_page_large-inverted next_page = (λ e. ground arith, λ e. ground arith)
