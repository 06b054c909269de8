-- ===== src/Zone/Registry.antt =====
-- The zone table of fuzz/xnu/osfmk/fakes/zalloc.c: zone_array, zone_security_array, the counters
-- num_zones and num_zones_in_use, and the functions that create zones and look them up. A zone_t is
-- the index of its zone in zone_array. The counters stay below MAX_ZONES + 1, so their 16 bits do
-- not wrap.
pub mod Laws
pub mod Invariant
use sock_fuzzer.Common.{
  ℕ, zero, suc, ◌+◌, ◌-◌, ◌*◌, ◌/◌, ◌%◌, ◌^◌, Bool, true, false, ◌&&◌, Option, none, some, List,
  Outcome, ok, stop, panicked, assert_failed, if◌then◌else◌, ltb, leb, ◌==◌, ◌>>=◌, length, take,
  is_some, update,
}
use sock_fuzzer.Zone.Sizing.{
  ZoneFlags, zone_max_alloc_size, zone_elem_adjust_size, zone_get_min_alloc_granule,
}

abbrev pub max_zones : ℕ
max_zones = 690

-- Where z_stats points: nowhere yet, into zone_stats_startup, or to per-CPU memory.
pub data ZoneStats : Type 0 where
  unset startup percpu : ZoneStats

pub record Zone : Type 0 where
  pub self : Option ℕ
  pub name : List ℕ
  pub stats : ZoneStats
  pub elem_size : ℕ
  pub chunk_pages : ℕ
  pub quo_magic : ℕ
  pub align_magic : ℕ
  pub chunk_elems : ℕ
  pub elem_offs : ℕ
  pub nocaching : Bool

pub record SecurityFlags : Type 0 where
  pub kheap_id : ℕ
  pub noencrypt : Bool
  pub submap_idx : ℕ
  pub kalloc_type : Bool
  pub sig_eq : ℕ

pub record Registry : Type 0 where
  pub zones : ℕ → Zone
  pub security : ℕ → SecurityFlags
  pub num_zones : ℕ
  pub in_use : ℕ

-- What zalloc.c takes from XNU's headers, under their names there: ZONE_ID_ANY,
-- ZONE_ID__FIRST_DYNAMIC, ZONE_ID_PERCPU_PERMANENT, PAGE_SIZE, MACH_ZONE_NAME_MAX_LEN,
-- KHEAP_ID_NONE, Z_SUBMAP_IDX_GENERAL_0, atop, Z_MAGIC_QUO and Z_MAGIC_ALIGNED; and the number of
-- CPUs, which zpercpu_count gives.
pub record Xnu : Type 0 where
  pub zone_id_any : ℕ
  pub first_dynamic : ℕ
  pub percpu_permanent : ℕ
  pub page_size : ℕ
  pub name_max_len : ℕ
  pub kheap_id_none : ℕ
  pub submap_idx_general : ℕ
  pub atop : ℕ → ℕ
  pub magic_quo : ℕ → ℕ
  pub magic_aligned : ℕ → ℕ
  pub cpus : ℕ

-- The slot of a new zone. The loop over zone_init_defaults touches no zone: it raises nzones.
unfoldable pub zone_create_find : Xnu → Registry → ZoneFlags → ℕ → Outcome (ℕ × Registry)
zone_create_find x r flags zid =
    let nzones = if ltb r.num_zones x.first_dynamic then x.first_dynamic else r.num_zones in
    if leb r.in_use r.num_zones && ltb r.num_zones max_zones
    then (if zid == x.zone_id_any
        then ok (nzones, record r { num_zones = nzones + 1; in_use = r.in_use + 1 })
        else if leb x.first_dynamic zid
        then stop panicked
        else if flags.destructible
        then stop panicked
        else if is_some (r.zones zid).self
        then stop panicked
        else ok (zid, record r { num_zones = nzones; in_use = r.in_use + 1 }))
    else stop assert_failed

-- Past lockdown the name is copied into nsz bytes, of which strlcpy keeps the last for the NUL.
abbrev pub stored_name : Xnu → (post_lockdown : Bool) → List ℕ → List ℕ
stored_name x post_lockdown name =
    if post_lockdown
    then (let nsz =
          if ltb (length name + 1) x.name_max_len then length name + 1 else x.name_max_len in
        take (nsz - 1) name)
    else name

abbrev pub cleared_security : SecurityFlags
cleared_security = record {
  kheap_id = 0;
  noencrypt = false;
  submap_idx = 0;
  kalloc_type = false;
  sig_eq = 0;
}

-- The new zone before `extra_setup`: `size` is adjusted, `alloc` is the chunk size.
unfoldable pub initialized_zone :
    Xnu
    → Registry
    → (post_lockdown : Bool) → (name : List ℕ) → (size alloc : ℕ) → ZoneFlags
    → Zone
    → Zone
initialized_zone x r post_lockdown name size alloc flags z =
    let elem_size = size % 2 ^ 16 in
    let span = if flags.percpu then x.page_size else alloc in
    record z {
      name = stored_name x post_lockdown name;
      stats =
          if is_some (r.zones x.percpu_permanent).self then ZoneStats.percpu else ZoneStats.startup;
      elem_size = elem_size;
      chunk_pages = x.atop alloc % 2 ^ 16;
      quo_magic = x.magic_quo size;
      align_magic = x.magic_aligned size;
      chunk_elems = span / elem_size % 2 ^ 16;
      elem_offs = span % elem_size % 2 ^ 16;
      nocaching = if flags.nocaching then true else z.nocaching;
    }

-- Elements below 16 bytes are too small for KASAN.
abbrev pub marked_flags : ℕ → ZoneFlags → ZoneFlags
marked_flags size flags =
    let small = ltb size 16 in
    record flags {
      kasan_noquarantine = if small then true else flags.kasan_noquarantine;
      kasan_noredzone = if small then true else flags.kasan_noredzone;
    }

-- What the block `extra_setup` makes of the new zone and of its entry in zone_security_array. That it writes
-- to no other zone is taken for granted.
abbrev pub ExtraSetup : Type 0
ExtraSetup = Zone → SecurityFlags → Zone × SecurityFlags

-- The zone as it stands in the table at the end: `extra_setup` ran on it, and z_self points to it.
abbrev pub finished_zone : ExtraSetup → ℕ → Zone → Zone
finished_zone extra_setup zid z = record (extra_setup z cleared_security).0 { self = some zid }

-- zone_create_ext from the slot on: an older match is returned, an empty slot is set up.
unfoldable pub set_up_zone :
    Xnu
    → (post_lockdown : Bool) → (name : List ℕ) → (size : ℕ) → ZoneFlags
    → (extra_setup : ExtraSetup) → (zid : ℕ) → Registry
    → Outcome (ℕ × Registry)
set_up_zone x post_lockdown name size flags extra_setup zid r =
    if is_some (r.zones zid).self then ok (zid, r) else do
      alloc ← zone_get_min_alloc_granule x.page_size x.cpus size flags
      let z = initialized_zone x r post_lockdown name size alloc flags (r.zones zid)
      ok (
        zid,
        record r {
          zones = update r.zones zid (finished_zone extra_setup zid z);
          security = update r.security zid (extra_setup z cleared_security).1;
        },
      )

-- `extra_setup` is the block that the caller passes, the identity for NULL.
unfoldable pub zone_create_ext :
    Xnu
    → (post_lockdown : Bool) → Registry
    → (name : List ℕ) → (size : ℕ) → ZoneFlags
    → (zid : ℕ) → (extra_setup : ExtraSetup) → Outcome (ℕ × Registry)
zone_create_ext x post_lockdown r name size flags zid extra_setup =
    if ltb zone_max_alloc_size size then stop panicked else do
      (zid', r') ← zone_create_find x r (marked_flags size flags) zid
      set_up_zone x post_lockdown name (zone_elem_adjust_size size) (marked_flags size flags)
          extra_setup zid' r'

-- NULL for ZONE_ID_ANY and for a slot whose zone is not set up.
unfoldable pub zone_by_id : Xnu → Registry → ℕ → Outcome (Option Zone)
zone_by_id x r zid =
    if zid == x.zone_id_any
    then ok none
    else if leb max_zones zid
    then stop panicked
    else ok (elim (r.zones zid).self [
      | none ↦ none
      | some self ↦ if self == zid then some (r.zones zid) else none
    ])

unfoldable pub zone_security_array_init : Xnu → Registry → Registry
zone_security_array_init x r = record r {
  security = λ i.
      if ltb i max_zones
      then record {
        kheap_id = x.kheap_id_none;
        noencrypt = false;
        submap_idx = x.submap_idx_general;
        kalloc_type = false;
        sig_eq = 0;
      }
      else r.security i;
}

unfoldable pub zone_set_sig_eq : Registry → ℕ → ℕ → Registry
zone_set_sig_eq r zid sig_eq = record r {
  security = update r.security zid (record (r.security zid) { sig_eq = sig_eq });
}

unfoldable pub zone_get_sig_eq : Registry → ℕ → ℕ
zone_get_sig_eq r zid = (r.security zid).sig_eq
