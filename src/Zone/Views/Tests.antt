-- ===== src/Zone/Views/Tests.antt =====
-- Three zone views at startup.
use sock_fuzzer.Common.{
  ℕ, ◌+◌, ◌%◌, ◌^◌, ◌≡◌, refl, true, none, some, List, [], ◌∷◌, ok, stop, aborted, if◌then◌else◌,
  ◌==◌,
}
use sock_fuzzer.Zone.Registry.{Registry, max_zones, cleared_security}
use sock_fuzzer.Zone.Tests.{sample, blank}
use sock_fuzzer.Zone.Views.{
  Views, ViewSpec, data_buffers, other_heap, no_views, zone_view_startup_init, startup_views,
}
use sock_fuzzer.Zone.Views.Chains.{member, Linked, viewed}
use sock_fuzzer.Zone.Views.Laws.{chain_all, startup_views-Linked}

-- Views 5 and 6 are of zone 12, view 7 of a zone of the heap for data; that heap's zones start at 40.
abbrev heaps : Registry
heaps = record blank {
  security = λ z. record cleared_security { kheap_id = if z == 40 then 1 else 0 };
}

abbrev view_specs : List ViewSpec
view_specs =
    record { zv_view = 5; zv_heapid = other_heap; zv_size = 16; zv_zone = some 12 }
    ∷ record { zv_view = 6; zv_heapid = other_heap; zv_size = 32; zv_zone = some 12 }
    ∷ record { zv_view = 7; zv_heapid = data_buffers; zv_size = 64; zv_zone = none }
    ∷ []

startup_views-Linked_example :
    (v : Views) × (startup_views sample heaps (λ z. 64) (λ size. some 40) view_specs no_views
      ≡ ok v)
    × ((z : ℕ)
        → Linked v.zv_next
            (v.z_views z)
            (chain_all sample heaps (λ z'. 64) (λ size. some 40) view_specs (λ z'. []) z))
    × ((z view : ℕ)
        → member view (chain_all sample heaps (λ z'. 64) (λ size. some 40) view_specs (λ z'. []) z)
          ≡ true
        → v.zv_zone view ≡ some z)
    × (v.zone_view_count
        ≡ (3
            + viewed
                (λ z. (heaps.security z).kheap_id == sample.kheap_id_none)
                (chain_all sample heaps (λ z'. 64) (λ size. some 40) view_specs (λ z'. []))
                max_zones)
          % 2 ^ 32)
startup_views-Linked_example =
    startup_views-Linked sample heaps (λ z. 64) (λ size. some 40) view_specs refl

small_zone :
    zone_view_startup_init sample heaps
      (λ z. 8)
      (λ size. some 40)
      (record { zv_view = 5; zv_heapid = other_heap; zv_size = 16; zv_zone = some 12 })
      no_views
    ≡ stop aborted
unfolding zone_view_startup_init
small_zone = refl
