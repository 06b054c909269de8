-- ===== src/Zone/Elements.antt =====
-- Elements of zones in fuzz/xnu/osfmk/fakes/zalloc.c: zalloc_ext and what allocates by it or releases to libc, and the
-- writes to read-only zones. A block of the heap is the list of its bytes under its address.
pub mod Laws
mod Tests
use sock_fuzzer.Common.{
  ℕ, Bool, true, false, ◌&&◌, Option, none, some, List, replicate, Outcome, ok, stop, aborted,
  assert_failed, ◌>>=◌, if◌then◌else◌, leb, update, ◌≡◌,
}
use sock_fuzzer.Message.{copy_at}
use sock_fuzzer.Zone.Registry.{Zone, Registry}

abbrev pub Heap : Type 0
Heap = ℕ → Option (List ℕ)

-- libc's allocator: where a block of some size goes, none being a null pointer. No block is there yet.
pub record Libc : Type 0 where
  pub place : Heap → (size : ℕ) → Option ℕ
  pub place_lem : (h : Heap) (size address : ℕ) → place h size ≡ some address → h address ≡ none

-- Releasing what is no block is undefined in C, and changes nothing here.
abbrev pub free : (address : ℕ) → Heap → Heap
free address h = update h address none

-- The bounds of the read-only zones in XNU: ZONE_ID__FIRST_RO and ZONE_ID__LAST_RO.
pub record ReadOnly : Type 0 where
  pub first_ro : ℕ
  pub last_ro : ℕ

module _ (libc : Libc) where
  abbrev pub calloc : (size : ℕ) → Heap → Option ℕ × Heap
  calloc size h = elim (libc.place h size) [
    | none ↦ (none, h)
    | some address ↦ (some address, update h address (some (replicate size 0)))
  ]

  -- The address and the size of the result, and the heap.
  abbrev pub zalloc_ext : Zone → Heap → (Option ℕ × ℕ) × Heap
  zalloc_ext zone h =
      let size = zone.elem_size in let (address, h') = calloc size h in ((address, size), h')

  unfoldable pub zalloc_flags : Registry → (zone : ℕ) → Heap → Outcome (Option ℕ × Heap)
  zalloc_flags r zone h = elim (r.zones zone).self [
    | none ↦ stop assert_failed
    | some self ↦ let ((address, size), h') = zalloc_ext (r.zones self) h in ok (address, h')
  ]

  abbrev pub xnu_zalloc : Registry → (zone : ℕ) → Heap → Outcome (Option ℕ × Heap)
  xnu_zalloc r zone h = zalloc_flags r zone h

  abbrev pub zalloc_id : Registry → (zid : ℕ) → Heap → Outcome (Option ℕ × Heap)
  zalloc_id r zid h = zalloc_flags r zid h

  abbrev pub zalloc_permanent : (size : ℕ) → Heap → Option ℕ × Heap
  zalloc_permanent size h = calloc size h

abbrev pub xnu_zfree : (zone address : ℕ) → Heap → Heap
xnu_zfree zone address h = free address h

abbrev pub zfree_id : (zone_id address : ℕ) → Heap → Heap
zfree_id zone_id address h = free address h

abbrev pub zfree_ro : (zone_id address : ℕ) → Heap → Heap
zfree_ro zone_id address h = free address h

abbrev pub zfree_nozero : (zone_id address : ℕ) → Heap → Heap
zfree_nozero zone_id address h = free address h

-- memcpy into a block. What does not fit in it is lost, where in C it goes to what lies behind.
abbrev pub write_block : (elem offset : ℕ) → List ℕ → Heap → Heap
write_block elem offset new h = elim (h elem) [
  | none ↦ h
  | some block ↦ update h elem (some (copy_at offset new block))
]

module _ (ro : ReadOnly) where
  unfoldable pub zalloc_ro_mut : (zid elem offset : ℕ) → (new : List ℕ) → Heap → Outcome Heap
  zalloc_ro_mut zid elem offset new h =
      if leb ro.first_ro zid && leb zid ro.last_ro
      then ok (write_block elem offset new h)
      else stop assert_failed

  unfoldable pub zalloc_ro_clear : (zid elem offset size : ℕ) → Heap → Outcome Heap
  zalloc_ro_clear zid elem offset size h =
      if leb ro.first_ro zid && leb zid ro.last_ro
      then ok (write_block elem offset (replicate size 0) h)
      else stop assert_failed
