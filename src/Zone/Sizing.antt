-- ===== src/Zone/Sizing.antt =====
-- zone_elem_adjust_size and zone_get_min_alloc_granule of fuzz/xnu/osfmk/fakes/zalloc.c: how large
-- an element is, and how large the chunks are that elements are cut from.
pub mod Laws
use sock_fuzzer.Common.{
  ℕ, zero, suc, ◌+◌, ◌-◌, ◌*◌, ◌/◌, ◌%◌, ◌≤◌, ◌^◌, Bool, true, false, Outcome, ok, stop, panicked,
  if◌then◌else◌, ltb, leb, ◌==◌, ◌>>=◌,
}

abbrev pub zone_max_alloc_size : ℕ
zone_max_alloc_size = 32 * 1024

-- sizeof(uint64_t), which is also ZONE_ALIGN_SIZE.
abbrev pub zone_min_elem_size : ℕ
zone_min_elem_size = 8

-- The zone_create_flags_t bits that zalloc.c sets or tests, one field for each ZC_ constant.
pub record ZoneFlags : Type 0 where
  pub percpu : Bool
  pub readonly : Bool
  pub destructible : Bool
  pub nocaching : Bool
  pub kasan_noquarantine : Bool
  pub kasan_noredzone : Bool

-- `x & -8` on a 64-bit vm_size_t clears the low three bits; the sum before it may wrap.
unfoldable pub zone_elem_adjust_size : ℕ → ℕ
zone_elem_adjust_size elem_size =
    let size =
      (elem_size + zone_min_elem_size - 1) % 2 ^ 64 / zone_min_elem_size * zone_min_elem_size in
    if ltb size zone_min_elem_size then zone_min_elem_size else size

-- The share of a chunk of `alloc` bytes that no element uses, in percent.
abbrev pub fragmentation : (elem_size alloc : ℕ) → ℕ
fragmentation elem_size alloc = alloc % elem_size * 100 / alloc

-- The `while` loop: `alloc_tmp` is the chunk tried before, and `rounds` bounds the tries. The
-- bound is never met: a page is at least one byte, and the loop is given that many rounds.
unfoldable pub granule_loop : (page_size elem_size : ℕ) → (rounds alloc_tmp frag granule : ℕ) → ℕ
granule_loop page_size elem_size zero alloc_tmp frag granule = granule
granule_loop page_size elem_size (suc rounds) alloc_tmp frag granule =
    let tried = alloc_tmp + page_size in
    let frag_tmp = fragmentation elem_size tried in
    let better = ltb frag_tmp frag in
    let rest =
      granule_loop page_size elem_size rounds tried (if better then frag_tmp else frag)
        (if better then tried else granule) in
    if leb tried zone_max_alloc_size then rest else granule

-- `page_size` is XNU's PAGE_SIZE, a power of two, so `& PAGE_MASK` is the remainder by it;
-- `cpus` is zpercpu_count(). The branch for __arm64__ is not compiled on this platform.
unfoldable pub zone_get_min_alloc_granule : (page_size cpus elem_size : ℕ) → ZoneFlags → Outcome ℕ
zone_get_min_alloc_granule page_size cpus elem_size flags =
    if flags.percpu
    then (if ltb 256 (page_size % elem_size) then stop panicked else ok (page_size * cpus))
    else if flags.readonly
    then ok page_size
    else if elem_size % page_size == 0
    then ok elem_size
    else if page_size % elem_size == 0
    then ok page_size
    else ok (
        granule_loop page_size elem_size zone_max_alloc_size page_size
          (fragmentation elem_size page_size) page_size)
