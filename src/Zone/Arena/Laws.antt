-- ===== src/Zone/Arena/Laws.antt =====
-- On the memory that kmem_mb_alloc of fuzz/xnu/osfmk/fakes/zalloc.c gives out.
use sock_fuzzer.Common.{
  ℕ, Bool, true, ◌&&◌, List, [], ◌∷◌, ◌==◌, ◌+◌, ◌*◌, ◌/◌, ◌%◌, ◌≤◌, ◌≡◌, refl, subst, arith,
}
use sock_fuzzer.Zone.Arena.{Arena, Memory, memory, first_arena, arena_length, kmem_mb_alloc}

-- Requests in a row, each with the address it gets.
abbrev pub serve : (sizes : List ℕ) → (aligned : Memory) → Arena → List (ℕ × ℕ) × Arena
serve [] aligned a = ([], a)
serve (size ∷ sizes) aligned a =
    let (address, error, a') = kmem_mb_alloc size aligned a in
    let (rest, last) = serve sizes aligned a' in ((address, size) ∷ rest, last)

-- Whole pages.
abbrev pub paged : List ℕ → Bool
paged [] = true
paged (size ∷ sizes) = (size % 4096 == 0) && paged sizes

abbrev pub sum : List ℕ → ℕ
sum [] = 0
sum (size ∷ sizes) = size + sum sizes

-- Pieces of memory that follow one another, none before `from` and none after `end`.
abbrev pub Apart : (from end : ℕ) → List (ℕ × ℕ) → Type 0
Apart from end [] = from ≤ end
Apart from end ((address, size) ∷ pieces) = (from ≤ address) × Apart (address + size) end pieces

-- A request when the memory is there.
kmem_mb_alloc-ready :
    (size : ℕ) (aligned : Memory) (a : Arena)
    → a.mb_is_ready ≡ true
    → kmem_mb_alloc size aligned a ≡ (
      a.mbutl + a.current_page * 4096,
      0,
      record a { current_page = a.current_page + size / 4096 },
    )
unfolding kmem_mb_alloc
kmem_mb_alloc-ready size aligned a ready = rw ready refl

serve_ready-Apart :
    (sizes : List ℕ) (aligned : Memory) (a : Arena)
    → a.mb_is_ready ≡ true
    → paged sizes ≡ true
    → a.current_page * 4096 + sum sizes ≤ arena_length
    → Apart (a.mbutl + a.current_page * 4096) (a.mbutl + arena_length) (serve sizes aligned a).0
serve_ready-Apart [] aligned a ready whole room = omega arith
serve_ready-Apart (size ∷ sizes) aligned a ready whole room =
    let a' : Arena = record a { current_page = a.current_page + size / 4096 } in
    let rest = serve_ready-Apart sizes aligned a' ready (ground arith) (ground arith) in
    let start : a.mbutl + a'.current_page * 4096 ≡ a.mbutl + a.current_page * 4096 + size =
      ground arith in
    rw (kmem_mb_alloc-ready size aligned a ready) (
      omega arith,
      subst (λ from. Apart from (a.mbutl + arena_length) (serve sizes aligned a').0) start rest,
    )

serve_ready-kept :
    (sizes : List ℕ) (aligned : Memory) (a : Arena)
    → a.mb_is_ready ≡ true
    → let last = (serve sizes aligned a).1 in (last.mbutl ≡ a.mbutl) × (last.embutl ≡ a.embutl)
serve_ready-kept [] aligned a ready = (refl, refl)
serve_ready-kept (size ∷ sizes) aligned a ready = rw (kmem_mb_alloc-ready size aligned a ready) (
    serve_ready-kept sizes aligned (record a { current_page = a.current_page + size / 4096 }) ready)

-- Requests for whole pages, at least one and together for no more than 65535 pages, are served from the start where there is
-- memory for mbufs. The pieces that kmem_mb_alloc gives out one after the other do not overlap, and all
-- lie between the mbutl and the embutl that it stores: the address of that memory and its end.
pub kmem_mb_alloc-Apart :
    (size : ℕ) (sizes : List ℕ) (address : ℕ)
    → paged (size ∷ sizes) ≡ true
    → sum (size ∷ sizes) ≤ arena_length
    → let (pieces, last) = serve (size ∷ sizes) (memory address) first_arena in
      (last.mbutl ≡ address)
      × (last.embutl ≡ address + 65535 * 4096)
      × Apart last.mbutl last.embutl pieces
unfolding kmem_mb_alloc
kmem_mb_alloc-Apart size sizes address whole room =
    let opened : Arena = record {
      mb_is_ready = true;
      mbutl = address;
      embutl = address + arena_length;
      current_page = 0;
    } in
    let pieces = (serve (size ∷ sizes) (memory address) opened).0 in
    let kept = serve_ready-kept (size ∷ sizes) (memory address) opened refl in
    let apart : Apart address (address + arena_length) pieces =
      subst (λ from. Apart from (address + arena_length) pieces) (omega arith)
        (serve_ready-Apart (size ∷ sizes) (memory address) opened refl whole (omega arith)) in
    (kept.0, kept.1, rw (kept.0, kept.1) apart)
