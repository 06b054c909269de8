-- ===== src/Zone/Elements/Laws.antt =====
-- On the elements of the zones of fuzz/xnu/osfmk/fakes/zalloc.c.
use sock_fuzzer.Common.{
  ℕ, zero, suc, Bool, ◌&&◌, none, some, List, [], ◌∷◌, ◌++◌, length, take, replicate,
  length-replicate, ok, stop, assert_failed, if◌then◌else◌, leb, update, update_self, ◌≡◌, ◌≢◌, ◌⊎◌,
  refl, ap, ◌∙◌, ◌+◌, ◌≤◌, ◌<◌, arith,
}
use sock_fuzzer.Message.{overwrite, copy_at}
use sock_fuzzer.Zone.Sizing.{ZoneFlags, zone_max_alloc_size, zone_elem_adjust_size}
use sock_fuzzer.Zone.Sizing.Laws.{zone_elem_adjust_size-least}
use sock_fuzzer.Zone.Registry.{
  Registry, Xnu, zone_create_ext, finished_zone, initialized_zone, marked_flags,
}
use sock_fuzzer.Zone.Registry.Invariant.{IsRegistry, zone_create_ext-inv}
use sock_fuzzer.Zone.Elements.{
  Heap, Libc, ReadOnly, calloc, write_block, zalloc_flags, zalloc_id, zfree_id, zalloc_ro_mut,
  zalloc_ro_clear,
}

-- What is left of a list behind some elements.
abbrev pub drop {ℓ} : {A : Type ℓ} → ℕ → List A → List A
drop zero xs = xs
drop (suc n) [] = []
drop (suc n) (x ∷ xs) = drop n xs

overwrite-append :
    (new block : List ℕ)
    → length new ≤ length block
    → overwrite new block ≡ new ++ drop (length new) block
overwrite-append [] block h = refl
overwrite-append (x ∷ new) [] h = absurd (omega arith)
overwrite-append (x ∷ new) (y ∷ block) h = ap (◌∷◌ x) (overwrite-append new block (omega arith))

-- A write inside of a block.
copy_at-append :
    (offset : ℕ) (new block : List ℕ)
    → offset + length new ≤ length block
    → copy_at offset new block ≡ take offset block ++ new ++ drop (offset + length new) block
copy_at-append zero new block h =
    let same : 0 + length new ≡ length new = omega arith in
    rw same (overwrite-append new block (omega arith))
copy_at-append (suc offset) new [] h = absurd (omega arith)
copy_at-append (suc offset) new (y ∷ block) h =
    let same : suc offset + length new ≡ suc (offset + length new) = omega arith in
    rw same (ap (◌∷◌ y) (copy_at-append offset new block (omega arith)))

-- A write to an element of a read-only zone that stays inside of it leaves the bytes before and behind as they
-- were, and the bytes that are written between them, zeros where they are cleared; the other elements stay
-- as they are. For a zone that is not a read-only one, both functions fail their assertion.
pub zalloc_ro_mut-append :
    (ro : ReadOnly) (zid elem offset : ℕ) (new block : List ℕ) (h : Heap)
    → h elem ≡ some block
    → offset + length new ≤ length block
    → let within = leb ro.first_ro zid && leb zid ro.last_ro in
      let written = λ (bytes : List ℕ).
        update h elem (some (take offset block ++ bytes ++ drop (offset + length new) block)) in
      (zalloc_ro_mut ro zid elem offset new h
        ≡ (if within then ok (written new) else stop assert_failed))
      × (zalloc_ro_clear ro zid elem offset (length new) h
          ≡ (if within then ok (written (replicate (length new) 0)) else stop assert_failed))
unfolding zalloc_ro_mut zalloc_ro_clear
zalloc_ro_mut-append ro zid elem offset new block h there fits =
    let zeros = length-replicate {A = ℕ} (length new) 0 in
    let cleared = copy_at-append offset (replicate (length new) 0) block (omega (arith, zeros)) in
    (
      rw (there, copy_at-append offset new block fits, write_block, zalloc_ro_mut) refl,
      rw (there, cleared, zeros, write_block, zalloc_ro_clear) refl,
    )

zone_elem_adjust_size_bound :
    (n : ℕ)
    → n ≤ zone_max_alloc_size
    → (zone_elem_adjust_size n < n + 8) ⊎ (zone_elem_adjust_size n ≡ 8)
unfolding zone_elem_adjust_size
zone_elem_adjust_size_bound n h = ground arith

-- The size of the elements of a new zone.
elem_size-zone_create_ext :
    (x : Xnu) (post_lockdown : Bool) (r : Registry) (name : List ℕ) (size : ℕ) (flags : ZoneFlags)
    (zid zid' : ℕ) (r' : Registry)
    → IsRegistry x r
    → zone_create_ext x post_lockdown r name size flags zid (λ z s. (z, s)) ≡ ok (zid', r')
    → ((r'.zones zid').self ≡ some zid')
      × ((r'.zones zid').elem_size ≡ zone_elem_adjust_size size)
      × (size ≤ zone_elem_adjust_size size)
      × ((zone_elem_adjust_size size < size + 8) ⊎ (zone_elem_adjust_size size ≡ 8))
unfolding initialized_zone
elem_size-zone_create_ext x post_lockdown r name size flags zid zid' r' v e =
    let (middle, f, s, fits) =
      zone_create_ext-inv x post_lockdown r name size flags zid (λ z s. (z, s)) zid' r' v e in
    let least =
      zone_elem_adjust_size-least size zone_max_alloc_size fits (omega arith) (omega arith) fits in
    let is : r'.zones zid'
        ≡ finished_zone (λ z s. (z, s)) zid'
            (initialized_zone x middle post_lockdown name (zone_elem_adjust_size size) s.alloc
              (marked_flags size flags) (middle.zones zid')) =
      rw s.zones (update_self middle.zones zid' s.zone ∙ s.made) in
    rw is (refl, omega (arith, least), least.2, zone_elem_adjust_size_bound size fits)

-- After zone_create_ext succeeds in a well-formed table, with no extra set-up, allocating from the new zone when
-- libc has room gives an address that was not in use, with a block of zeros that is as long as the size that the zone was
-- created for, or longer by less than eight bytes, or of eight bytes; the other blocks stay, and releasing
-- the element brings back the heap.
pub zalloc_id-zone_create_ext :
    (libc : Libc) (x : Xnu) (post_lockdown : Bool) (r : Registry) (name : List ℕ) (size : ℕ)
    (flags : ZoneFlags) (zid zid' : ℕ) (r' : Registry) (h : Heap) (address : ℕ)
    → IsRegistry x r
    → zone_create_ext x post_lockdown r name size flags zid (λ z s. (z, s)) ≡ ok (zid', r')
    → libc.place h (zone_elem_adjust_size size) ≡ some address
    → (h' : Heap) × (length' : ℕ) × (zalloc_id libc r' zid' h ≡ ok (some address, h'))
      × (h address ≡ none)
      × (h' address ≡ some (replicate length' 0))
      × (size ≤ length')
      × ((length' < size + 8) ⊎ (length' ≡ 8))
      × ((other : ℕ) → other ≢ address → h' other ≡ h other)
      × ((other : ℕ) → zfree_id zid' address h' other ≡ h other)
unfolding zalloc_flags
zalloc_id-zone_create_ext libc x post_lockdown r name size flags zid zid' r' h address v e room =
    let made = elem_size-zone_create_ext x post_lockdown r name size flags zid zid' r' v e in
    let new = libc.place_lem h (zone_elem_adjust_size size) address room in
    (
      update h address (some (replicate (zone_elem_adjust_size size) 0)),
      zone_elem_adjust_size size,
      rw (made.0, made.1, room, zalloc_flags, calloc) (rw made.1 refl),
      new,
      ground arith,
      made.2,
      made.3,
      λ other ne. ground arith,
      λ other. ground (arith, new),
    )
