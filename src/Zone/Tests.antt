-- ===== src/Zone/Tests.antt =====
-- Concrete zones: a table with its first zone, and batches of elements.
use sock_fuzzer.Common.{
  ℕ, ◌+◌, ◌/◌, ◌≡◌, ◌<◌, refl, Bool, true, false, none, some, List, [], ◌∷◌, ◌++◌, Outcome, ok,
  stop, if◌then◌else◌, update, ◌==◌, arith,
}
use sock_fuzzer.Zone.Stack.{ZoneStack}
use sock_fuzzer.Zone.Stack.Laws.{to_list, IsZoneStack}
use sock_fuzzer.Zone.Sizing.{ZoneFlags, zone_elem_adjust_size, zone_get_min_alloc_granule}
use sock_fuzzer.Zone.Sizing.Laws.{IsGranule, zone_get_min_alloc_granule-IsGranule}
use sock_fuzzer.Zone.Registry.{
  Zone, ZoneStats, Registry, Xnu, max_zones, zone_create_find, zone_create_ext, zone_by_id,
  set_up_zone, cleared_security,
}
use sock_fuzzer.Zone.Registry.Invariant.{
  IsRegistry, registered-le, zone_create_ext-IsRegistry, zone_by_id-zone_create_ext,
}
use sock_fuzzer.Zone.Cache.{CacheOps, ZoneCall, ops_alloc, ops_free, Supply, zcache_alloc_n}
use sock_fuzzer.Zone.Cache.Laws.{calls_for}
use sock_fuzzer.Zone.Cache.Batch.{alloc_calls, zcache_alloc_n_failed}

abbrev pub sample : Xnu
sample = record {
  zone_id_any = 65535;
  first_dynamic = 10;
  percpu_permanent = 2;
  page_size = 4096;
  name_max_len = 32;
  kheap_id_none = 0;
  submap_idx_general = 3;
  atop = λ n. n / 4096;
  magic_quo = λ n. n;
  magic_aligned = λ n. n;
  cpus = 1;
}

abbrev pub no_flags : ZoneFlags
no_flags = record {
  percpu = false;
  readonly = false;
  destructible = false;
  nocaching = false;
  kasan_noquarantine = false;
  kasan_noredzone = false;
}

abbrev blank_zone : Zone
blank_zone = record {
  self = none;
  name = [];
  stats = ZoneStats.unset;
  elem_size = 0;
  chunk_pages = 0;
  quo_magic = 0;
  align_magic = 0;
  chunk_elems = 0;
  elem_offs = 0;
  nocaching = false;
}

-- The table as the program starts: static memory, all zero.
abbrev pub blank : Registry
blank = record {
  zones = λ i. blank_zone;
  security = λ i. cleared_security;
  num_zones = 0;
  in_use = 0;
}

pub blank-IsRegistry : IsRegistry sample blank
blank-IsRegistry = record {
  self_is_own = λ i s e. cc;
  none_beyond = λ i h. refl;
  counted = omega (arith, registered-le max_zones 0 (λ i. blank_zone) (λ i h. refl));
  within = omega arith;
  room = omega arith;
}

abbrev registry_of : Outcome (ℕ × Registry) → Registry
registry_of (ok r) = r.1
registry_of (stop s) = blank

-- The table with one dynamic zone, of elements of 60 bytes.
abbrev pub one_zone : Registry
one_zone = registry_of (zone_create_ext sample false blank [] 60 no_flags 65535 (λ z s. (z, s)))

pub one_zone_created :
    zone_create_ext sample false blank [] 60 no_flags 65535 (λ z s. (z, s)) ≡ ok (10, one_zone)
unfolding zone_create_ext zone_create_find set_up_zone zone_elem_adjust_size
    zone_get_min_alloc_granule
one_zone_created = refl

one_zone-IsRegistry : IsRegistry sample one_zone
one_zone-IsRegistry =
    zone_create_ext-IsRegistry sample false blank [] 60 no_flags 65535 (λ z s. (z, s)) 10 one_zone
      blank-IsRegistry one_zone_created

zone_create_ext-IsRegistry_example : IsRegistry sample one_zone
zone_create_ext-IsRegistry_example =
    zone_create_ext-IsRegistry sample false blank [] 60 no_flags 65535 (λ z s. (z, s)) 10 one_zone
      blank-IsRegistry one_zone_created

zone_by_id-zone_create_ext_example :
    (zone_by_id sample blank 10 ≡ ok none)
    × (zone_by_id sample one_zone 10 ≡ ok (some (one_zone.zones 10)))
    × (one_zone.zones ≡ update blank.zones 10 (one_zone.zones 10))
zone_by_id-zone_create_ext_example =
    zone_by_id-zone_create_ext sample false blank [] 60 no_flags 65535 (λ z s. (z, s)) 10 one_zone
      blank-IsRegistry one_zone_created (λ e. omega arith)

few_zones : one_zone.num_zones < max_zones
unfolding zone_create_ext zone_create_find set_up_zone zone_elem_adjust_size
    zone_get_min_alloc_granule
few_zones = omega arith

zone_get_min_alloc_granule-IsGranule_example :
    (granule : ℕ) × (zone_get_min_alloc_granule 4096 1 64 no_flags ≡ ok granule)
    × IsGranule 4096 64 granule
zone_get_min_alloc_granule-IsGranule_example =
    zone_get_min_alloc_granule-IsGranule 4096 1 64 no_flags (omega arith) (omega arith) refl refl
      (λ e. omega arith)

abbrev is_empty : ZoneStack → Bool
is_empty s = s.count == 0

abbrev two_elems : ZoneStack
two_elems = record { head = some (500 ∷ 600 ∷ []); count = 2 }

two_elems-IsZoneStack : IsZoneStack two_elems
two_elems-IsZoneStack = record { fits = omega arith; freed = λ e. absurd (omega arith) }

abbrev all_ops : CacheOps
all_ops = record { op_alloc = true; op_free = true; op_mark_valid = true; op_mark_invalid = true }

one_zone_found : zone_by_id sample one_zone 10 ≡ ok (some (one_zone.zones 10))
one_zone_found =
    (zone_by_id-zone_create_ext sample false blank [] 60 no_flags 65535 (λ z s. (z, s)) 10 one_zone
      blank-IsRegistry one_zone_created (λ e. omega arith)).1

-- An allocator that gives the addresses from 1000 on, and one that fails in its third round.
abbrev plenty : ℕ → Supply
plenty i = record { drawn = 0; elem = 1000 + i; grown = true; junk = 0 }

abbrev short : ℕ → Supply
short i = record { drawn = 0; elem = if i == 2 then 0 else 1000 + i; grown = true; junk = 0 }

zcache_alloc_n_failed_example :
    (b : List ZoneCall × ZoneStack) × (zcache_alloc_n is_empty sample one_zone 10 4 all_ops short
      ≡ ok b)
    × (to_list b.1 ≡ [])
    × (b.0
        ≡ calls_for (alloc_calls all_ops (one_zone.zones 10).elem_size) (1000 ∷ 1001 ∷ [])
          ++ ops_alloc 0 ∷ ops_free 1001 ∷ ops_free 1000 ∷ [])
zcache_alloc_n_failed_example =
    zcache_alloc_n_failed is_empty (λ s. refl) short (λ i. refl) all_ops sample one_zone 10 4 2
      (one_zone.zones 10) one_zone_found (omega arith)
      ((λ e. omega arith), ((λ e. omega arith), tt)) refl
