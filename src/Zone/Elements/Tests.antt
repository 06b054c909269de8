-- ===== src/Zone/Elements/Tests.antt =====
-- An element of the zone that zone_create_ext made for elements of 60 bytes.
use sock_fuzzer.Common.{
  ℕ, ◌+◌, ◌<◌, ◌≤◌, ◌≡◌, ◌≢◌, ◌⊎◌, refl, false, none, some, [], ◌∷◌, replicate, ok, stop,
  assert_failed, if◌then◌else◌, is_some, update, arith,
}
use sock_fuzzer.Zone.Tests.{sample, no_flags, blank, blank-IsRegistry, one_zone, one_zone_created}
use sock_fuzzer.Zone.Elements.{
  Heap, Libc, ReadOnly, zalloc_flags, zalloc_id, zfree_id, zalloc_ro_mut, zalloc_ro_clear,
}
use sock_fuzzer.Zone.Elements.Laws.{zalloc_ro_mut-append, zalloc_id-zone_create_ext}

abbrev empty : Heap
empty = λ address. none

-- A libc with one place.
abbrev one_place : Libc
one_place = record {
  place = λ h size. if is_some (h 4096) then none else some 4096;
  place_lem = λ h size address e. ground arith;
}

zalloc_id-zone_create_ext_example :
    (h' : Heap) × (length' : ℕ) × (zalloc_id one_place one_zone 10 empty ≡ ok (some 4096, h'))
    × (empty 4096 ≡ none)
    × (h' 4096 ≡ some (replicate length' 0))
    × (60 ≤ length')
    × ((length' < 60 + 8) ⊎ (length' ≡ 8))
    × ((other : ℕ) → other ≢ 4096 → h' other ≡ empty other)
    × ((other : ℕ) → zfree_id 10 4096 h' other ≡ empty other)
zalloc_id-zone_create_ext_example =
    zalloc_id-zone_create_ext one_place sample false blank [] 60 no_flags 65535 10 one_zone empty
      4096 blank-IsRegistry one_zone_created refl

abbrev read_only : ReadOnly
read_only = record { first_ro = 3; last_ro = 6 }

abbrev one_block : Heap
one_block = update empty 4096 (some (1 ∷ 2 ∷ 3 ∷ 4 ∷ []))

zalloc_ro_mut-append_example :
    (zalloc_ro_mut read_only 4 4096 1 (8 ∷ 9 ∷ []) one_block
      ≡ ok (update one_block 4096 (some (1 ∷ 8 ∷ 9 ∷ 4 ∷ []))))
    × (zalloc_ro_clear read_only 4 4096 1 2 one_block
        ≡ ok (update one_block 4096 (some (1 ∷ 0 ∷ 0 ∷ 4 ∷ []))))
zalloc_ro_mut-append_example =
    zalloc_ro_mut-append read_only 4 4096 1 (8 ∷ 9 ∷ []) (1 ∷ 2 ∷ 3 ∷ 4 ∷ []) one_block refl
      (omega arith)

no_zone : zalloc_flags one_place blank 10 empty ≡ stop assert_failed
unfolding zalloc_flags
no_zone = refl

not_read_only : zalloc_ro_mut read_only 7 4096 1 (8 ∷ []) one_block ≡ stop assert_failed
unfolding zalloc_ro_mut
not_read_only = refl
