-- ===== src/Zone/Registry/Laws.antt =====
-- On zone_create_ext of fuzz/xnu/osfmk/fakes/zalloc.c: its errors, and the zone that it makes.
use native.Mathlib.Nat.{
  div-add-mod', le-div_iff_mul-le, mod-lt, mul-mod_left, div-le_self, mod-eq_of_lt,
}
use sock_fuzzer.Common.{
  ℕ, ◌+◌, ◌*◌, ◌/◌, ◌%◌, ◌^◌, ◌≤◌, ◌<◌, ◌≡◌, ◌≢◌, ◌↔◌, ◌⊎◌, refl, Bool, true, false, none, List,
  Outcome, ok, stop, panicked, assert_failed, ◌==◌, arith, Bool-cases, ◌∙◌, sym, update_self, inl,
  inr,
}
use native.Mathlib.Decide.{dec_le}
use sock_fuzzer.Zone.Sizing.{
  ZoneFlags, zone_max_alloc_size, zone_elem_adjust_size, zone_get_min_alloc_granule,
}
use sock_fuzzer.Zone.Sizing.Laws.{
  zone_elem_adjust_size-least, elem_size-le-granule, zone_get_min_alloc_granule-IsGranule,
}
use sock_fuzzer.Zone.Registry.{
  ExtraSetup, Registry, Xnu, max_zones, zone_create_find, zone_create_ext, marked_flags,
  finished_zone, initialized_zone, zone_by_id, zone_set_sig_eq, zone_get_sig_eq,
  zone_security_array_init,
}
use sock_fuzzer.Zone.Registry.Invariant.{IsRegistry, registered-le, zone_create_ext-inv}

-- In a well-formed table the assertion of zone_create_find fails exactly when the table is full:
-- num_zones_in_use never exceeds num_zones.
pub zone_create_find_assert :
    (x : Xnu) (r : Registry) (flags : ZoneFlags) (zid : ℕ)
    → IsRegistry x r
    → (zone_create_find x r flags zid ≡ stop assert_failed) ↔ (max_zones ≤ r.num_zones)
unfolding zone_create_find
zone_create_find_assert x r flags zid v =
    let used : r.in_use ≤ r.num_zones =
      omega (arith, v.counted, registered-le max_zones r.num_zones r.zones v.none_beyond) in
    (λ e. ground arith, λ h. ground arith)

-- In a well-formed table that is not full, creating a zone under a fixed id panics if the id is
-- taken or dynamic, or the zone is destructible.
pub zone_create_ext_panics :
    (x : Xnu) (post_lockdown : Bool) (r : Registry) (name : List ℕ) (size : ℕ) (flags : ZoneFlags)
    (zid : ℕ) (extra_setup : ExtraSetup)
    → IsRegistry x r
    → r.num_zones < max_zones
    → zid ≢ x.zone_id_any
    → ((r.zones zid).self ≢ none) ⊎ ((x.first_dynamic ≤ zid) ⊎ (flags.destructible ≡ true))
    → zone_create_ext x post_lockdown r name size flags zid extra_setup ≡ stop panicked
unfolding zone_create_ext zone_create_find
zone_create_ext_panics x post_lockdown r name size flags zid extra_setup v h ne bad =
    let used : r.in_use ≤ r.num_zones =
      omega (arith, v.counted, registered-le max_zones r.num_zones r.zones v.none_beyond) in
    ground arith

ok_injective : {a b : ℕ} → ◌≡◌ {A = Outcome ℕ} (ok a) (ok b) → a ≡ b
ok_injective e = cc

page_le :
    (page_size : ℕ)
    → 0 < page_size
    → zone_max_alloc_size % page_size ≡ 0
    → page_size ≤ zone_max_alloc_size
page_le page_size p d = elim (dec_le page_size zone_max_alloc_size) [
  | yes h ↦ h
  | no h ↦ absurd (
      let r : zone_max_alloc_size % page_size ≡ zone_max_alloc_size = mod-eq_of_lt (omega arith) in
      omega (arith, r, d))
]

whole_chunk : (page_size granule pages : ℕ) → granule ≡ pages * page_size → granule % page_size ≡ 0
whole_chunk page_size granule pages e = rw e (mul-mod_left pages page_size)

granule_bounds :
    (page_size cpus elem_size alloc : ℕ) (flags : ZoneFlags)
    → 0 < page_size
    → zone_max_alloc_size % page_size ≡ 0
    → flags.percpu ≡ false
    → flags.readonly ≡ false
    → 0 < elem_size
    → elem_size ≤ zone_max_alloc_size
    → zone_get_min_alloc_granule page_size cpus elem_size flags ≡ ok alloc
    → (alloc % page_size ≡ 0) × (elem_size ≤ alloc) × (alloc ≤ zone_max_alloc_size)
unfolding zone_get_min_alloc_granule
granule_bounds page_size cpus elem_size alloc flags p d np nr q r e =
    elim (Bool-cases (elem_size % page_size == 0)) [
      | inl whole ↦ whole_pages (ground arith)
      | inr rest ↦
          (let (granule, found, g) =
              zone_get_min_alloc_granule-IsGranule page_size cpus elem_size flags p
                (page_le page_size p d) np nr (ground arith) in
            let same : granule ≡ alloc = ok_injective (sym found ∙ e) in
            rw (← same) (
              whole_chunk page_size granule g.pages g.whole,
              elem_size-le-granule page_size elem_size granule p d q r g,
              g.bounded,
            ))
    ]
  where
    whole_pages :
        elem_size % page_size ≡ 0
        → (alloc % page_size ≡ 0) × (elem_size ≤ alloc) × (alloc ≤ zone_max_alloc_size)
    whole_pages w = let same : elem_size ≡ alloc = ground arith in rw (← same) (w, omega arith, r)

chunk_parts :
    (size alloc : ℕ)
    → 0 < size
    → size ≤ alloc
    → alloc ≤ zone_max_alloc_size
    → (size % 2 ^ 16 ≡ size)
      × (0 < alloc / size % 2 ^ 16)
      × (alloc % size % 2 ^ 16 < size)
      × (alloc / size % 2 ^ 16 * size + alloc % size % 2 ^ 16 ≡ alloc)
chunk_parts size alloc p h m =
    let one : 1 ≤ alloc / size = (le-div_iff_mul-le p).1 (omega arith) in
    let q : alloc / size ≤ alloc = div-le_self alloc size in
    let l : alloc % size < size = mod-lt alloc p in
    let q' : alloc / size % 2 ^ 16 ≡ alloc / size = omega (arith, q) in
    let r' : alloc % size % 2 ^ 16 ≡ alloc % size = omega (arith, l) in
    (omega arith, rw q' one, rw r' l, rw (q', r') (div-add-mod' alloc size))

-- Where the page size divides 32 KiB, a zone created in a well-formed table, with no extra set-up
-- and neither the per-CPU nor the read-only flag, has a chunk of whole pages, at most 32 KiB, that
-- is cut into at least one element of the adjusted size, and what is left over is less than an
-- element.
pub zone_create_ext_chunk :
    (x : Xnu) (post_lockdown : Bool) (r : Registry) (name : List ℕ) (size : ℕ) (flags : ZoneFlags)
    (zid zid' : ℕ) (r' : Registry)
    → IsRegistry x r
    → 0 < x.page_size
    → zone_max_alloc_size % x.page_size ≡ 0
    → flags.percpu ≡ false
    → flags.readonly ≡ false
    → zone_create_ext x post_lockdown r name size flags zid (λ z s. (z, s)) ≡ ok (zid', r')
    → let z = r'.zones zid' in
      (z.elem_size ≡ zone_elem_adjust_size size)
      × (0 < z.chunk_elems)
      × (z.elem_offs < z.elem_size)
      × ((z.chunk_elems * z.elem_size + z.elem_offs) % x.page_size ≡ 0)
      × (z.chunk_elems * z.elem_size + z.elem_offs ≤ zone_max_alloc_size)
unfolding initialized_zone
zone_create_ext_chunk x post_lockdown r name size flags zid zid' r' v p d np nr e =
    let (middle, f, s, fits) =
      zone_create_ext-inv x post_lockdown r name size flags zid (λ z s. (z, s)) zid' r' v e in
    let least =
      zone_elem_adjust_size-least size zone_max_alloc_size fits (omega arith) (omega arith) fits in
    let small : zone_elem_adjust_size size ≤ zone_max_alloc_size = least.3 in
    let b =
      granule_bounds x.page_size x.cpus (zone_elem_adjust_size size) s.alloc
        (marked_flags size flags) p d np nr least.1 small s.granule in
    let c = chunk_parts (zone_elem_adjust_size size) s.alloc least.1 b.1 b.2 in
    let is : r'.zones zid'
        ≡ finished_zone (λ z s. (z, s)) zid'
            (initialized_zone x middle post_lockdown name (zone_elem_adjust_size size) s.alloc
              (marked_flags size flags) (middle.zones zid')) =
      rw s.zones (update_self middle.zones zid' s.zone ∙ s.made) in
    rw (is, c.0, np) (refl, c.1, c.2, rw c.3 b.0, rw c.3 b.2)

-- A signature that is set is read back, the signature of another zone stays, and so does what
-- zone_by_id finds. After zone_security_array_init a zone of the table has the signature 0.
pub zone_get_sig_eq-zone_set_sig_eq :
    (x : Xnu) (r : Registry) (zid sig_eq j : ℕ)
    → j ≢ zid
    → j < max_zones
    → (zone_get_sig_eq (zone_set_sig_eq r zid sig_eq) zid ≡ sig_eq)
      × (zone_get_sig_eq (zone_set_sig_eq r zid sig_eq) j ≡ zone_get_sig_eq r j)
      × (zone_get_sig_eq (zone_security_array_init x r) j ≡ 0)
      × (zone_by_id x (zone_set_sig_eq r zid sig_eq) j ≡ zone_by_id x r j)
unfolding zone_get_sig_eq zone_set_sig_eq zone_security_array_init zone_by_id
zone_get_sig_eq-zone_set_sig_eq x r zid sig_eq j ne below =
    (ground arith, ground arith, ground arith, refl)
