-- ===== src/Zone/Registry/Invariant.antt =====
-- On the zone table of fuzz/xnu/osfmk/fakes/zalloc.c and its invariant.
use sock_fuzzer.Common.{
  ℕ, zero, suc, ◌+◌, ◌≤◌, ◌<◌, ◌≡◌, ◌≢◌, refl, Bool, none, some, List, ok, if◌then◌else◌, ltb, ◌==◌,
  inl, inr, is_some, update, update_self, sym, arith, Bool-cases, ap, >>=-eq-ok, ◌∙◌, ltb-false→le,
}
use native.Mathlib.Decide.{dec_le}
use sock_fuzzer.Zone.Sizing.{
  ZoneFlags, zone_max_alloc_size, zone_elem_adjust_size, zone_get_min_alloc_granule,
}
use sock_fuzzer.Zone.Registry.{
  ExtraSetup, Zone, Registry, Xnu, max_zones, zone_create_find, zone_create_ext, initialized_zone,
  finished_zone, marked_flags, set_up_zone, zone_by_id,
}

-- How many of the first `n` zones are set up.
unfoldable pub registered : ℕ → (ℕ → Zone) → ℕ
registered zero zones = 0
registered (suc n) zones = (if is_some (zones n).self then 1 else 0) + registered n zones

pub record IsRegistry (x : Xnu) (r : Registry) : Type 0 where
  pub self_is_own : (i s : ℕ) → (r.zones i).self ≡ some s → s ≡ i
  pub none_beyond : (i : ℕ) → r.num_zones ≤ i → (r.zones i).self ≡ none
  pub counted : r.in_use ≡ registered max_zones r.zones
  pub within : r.num_zones ≤ max_zones
  pub room : x.first_dynamic < max_zones

registered-update-outside :
    (n i : ℕ) (zones : ℕ → Zone) (z : Zone)
    → n ≤ i
    → registered n (update zones i z) ≡ registered n zones
unfolding registered
registered-update-outside zero i zones z h = refl
registered-update-outside (suc n) i zones z h =
    ground (arith, registered-update-outside n i zones z)

-- Setting up a zone that was not set up raises the count by one.
registered-update :
    (n i s : ℕ) (zones : ℕ → Zone) (z : Zone)
    → i < n
    → (zones i).self ≡ none
    → z.self ≡ some s
    → registered n (update zones i z) ≡ suc (registered n zones)
unfolding registered
registered-update zero i s zones z h e f = absurd (omega arith)
registered-update (suc n) i s zones z h e f = elim (Bool-cases (n == i)) [
  | inl last ↦ ground (arith, registered-update-outside n i zones z)
  | inr more ↦ ground (arith, registered-update n i s zones z)
]

registered_bound : (n : ℕ) (zones : ℕ → Zone) → registered n zones ≤ n
unfolding registered
registered_bound zero zones = omega arith
registered_bound (suc n) zones = ground (arith, registered_bound n zones)

pub registered-le :
    (n m : ℕ) (zones : ℕ → Zone)
    → ((i : ℕ) → m ≤ i → (zones i).self ≡ none)
    → registered n zones ≤ m
unfolding registered
registered-le zero m zones h = omega arith
registered-le (suc n) m zones h = elim (dec_le m n) [
  | yes le ↦ rw (h n le) (omega (arith, registered-le n m zones h))
  | no gt ↦ ground (arith, registered_bound n zones)
]

-- What a successful zone_create_find gives: an empty slot below the new num_zones.
pub record Found (r : Registry) (zid : ℕ) (r' : Registry) : Type 0 where
  pub zones : r'.zones ≡ r.zones
  pub security : r'.security ≡ r.security
  pub free : (r.zones zid).self ≡ none
  pub below : zid < r'.num_zones
  pub grows : r.num_zones ≤ r'.num_zones
  pub in_use : r'.in_use ≡ suc r.in_use
  pub within : r'.num_zones ≤ max_zones

zone_create_find-Found :
    (x : Xnu) (r : Registry) (flags : ZoneFlags) (zid zid' : ℕ) (r' : Registry)
    → IsRegistry x r
    → zone_create_find x r flags zid ≡ ok (zid', r')
    → Found r zid' r'
unfolding zone_create_find
zone_create_find-Found x r flags zid zid' r' v e = grind arith

-- How a successful set-up of an empty slot went.
pub record SetUp (x : Xnu) (post_lockdown : Bool) (name : List ℕ) (size : ℕ) (flags : ZoneFlags)
    (extra_setup : ExtraSetup) (zid : ℕ) (r r' : Registry) : Type 0 where
  pub alloc : ℕ
  pub granule : zone_get_min_alloc_granule x.page_size x.cpus size flags ≡ ok alloc
  pub zone : Zone
  pub made :
      zone
      ≡ finished_zone extra_setup zid
          (initialized_zone x r post_lockdown name size alloc flags (r.zones zid))
  pub zones : r'.zones ≡ update r.zones zid zone
  pub num_zones : r'.num_zones ≡ r.num_zones
  pub in_use : r'.in_use ≡ r.in_use

module _ (x : Xnu) (post_lockdown : Bool) (name : List ℕ) (size : ℕ) (flags : ZoneFlags)
    (extra_setup : ExtraSetup) (zid : ℕ) (r : Registry) where
  set_up_zone-SetUp :
      (zid' : ℕ) (r' : Registry)
      → (r.zones zid).self ≡ none
      → set_up_zone x post_lockdown name size flags extra_setup zid r ≡ ok (zid', r')
      → (zid' ≡ zid) × SetUp x post_lockdown name size flags extra_setup zid r r'
  unfolding set_up_zone
  set_up_zone-SetUp zid' r' free e =
      let (alloc, granule, done) =
        >>=-eq-ok (zone_get_min_alloc_granule x.page_size x.cpus size flags) _ (rw free at e) in
      (
        cc,
        record {
          alloc = alloc;
          granule = granule;
          zone = _;
          made = refl;
          zones = ground arith;
          num_zones = ground arith;
          in_use = ground arith;
        },
      )

module _ (x : Xnu) (post_lockdown : Bool) (r : Registry) (name : List ℕ) (size : ℕ)
    (flags : ZoneFlags) (zid : ℕ) (extra_setup : ExtraSetup) where
  -- A successful zone_create_ext found an empty slot and set it up.
  pub zone_create_ext-inv :
      (zid' : ℕ) (r' : Registry)
      → IsRegistry x r
      → zone_create_ext x post_lockdown r name size flags zid extra_setup ≡ ok (zid', r')
      → (middle : Registry) × Found r zid' middle
        × SetUp x post_lockdown name
            (zone_elem_adjust_size size)
            (marked_flags size flags)
            extra_setup
            zid'
            middle
            r'
        × (size ≤ zone_max_alloc_size)
  unfolding zone_create_ext
  zone_create_ext-inv zid' r' v e = elim (Bool-cases (ltb zone_max_alloc_size size)) [
    | inl large ↦ absurd (ground arith)
    | inr fits ↦
        (let ((zid₁, r₁), found, rest) =
            >>=-eq-ok (zone_create_find x r (marked_flags size flags) zid) _ (rw fits at e) in
          let f = zone_create_find-Found x r (marked_flags size flags) zid zid₁ r₁ v found in
          let (same, s) =
            set_up_zone-SetUp x post_lockdown _ _ _ extra_setup zid₁ r₁ zid' r' (rw f.zones f.free)
              rest in
          (r₁, rw same f, rw same s, ltb-false→le _ _ fits))
  ]

-- What a new zone changes: its own slot, which was empty and lies below num_zones, and the counters.
pub record Placed (r : Registry) (zid : ℕ) (r' : Registry) : Type 0 where
  pub zone : Zone
  pub own : zone.self ≡ some zid
  pub zones : r'.zones ≡ update r.zones zid zone
  pub free : (r.zones zid).self ≡ none
  pub below : zid < r'.num_zones
  pub grows : r.num_zones ≤ r'.num_zones
  pub in_use : r'.in_use ≡ suc r.in_use
  pub within : r'.num_zones ≤ max_zones

Placed-IsRegistry :
    (x : Xnu) (r : Registry) (zid : ℕ) (r' : Registry)
    → IsRegistry x r
    → Placed r zid r'
    → IsRegistry x r'
Placed-IsRegistry x r zid r' v p = record {
  self_is_own = λ i s e. own i s (rw p.zones at e);
  none_beyond = λ i h. rw p.zones (beyond i h);
  counted =
      rw
        (
          p.in_use,
          p.zones,
          registered-update max_zones zid zid r.zones p.zone (omega (arith, p.below, p.within))
              p.free p.own,
        )
        (ap suc v.counted);
  within = p.within;
  room = v.room;
}
  where
    own : (i s : ℕ) → (update r.zones zid p.zone i).self ≡ some s → s ≡ i
    own i s e = ground (arith, v.self_is_own i s, p.own)

    beyond : (i : ℕ) → r'.num_zones ≤ i → (update r.zones zid p.zone i).self ≡ none
    beyond i h = ground (arith, v.none_beyond i, p.below, p.grows)

module _ (x : Xnu) (post_lockdown : Bool) (r : Registry) (name : List ℕ) (size : ℕ)
    (flags : ZoneFlags) (zid : ℕ) (extra_setup : ExtraSetup) (zid' : ℕ) (r' : Registry)
    (v : IsRegistry x r)
    (e : zone_create_ext x post_lockdown r name size flags zid extra_setup ≡ ok (zid', r')) where
  pub zone_create_ext-Placed : Placed r zid' r'
  zone_create_ext-Placed =
      let (middle, f, s, _) =
        zone_create_ext-inv x post_lockdown r name size flags zid extra_setup zid' r' v e in
      record {
        zone = s.zone;
        own = ap (λ (z : Zone). z.self) s.made;
        zones = s.zones ∙ ap (λ zs. update zs zid' s.zone) f.zones;
        free = f.free;
        below = omega (arith, f.below, s.num_zones);
        grows = omega (arith, f.grows, s.num_zones);
        in_use = omega (arith, f.in_use, s.in_use);
        within = omega (arith, f.within, s.num_zones);
      }

  -- A successful zone_create_ext keeps a well-formed table well formed: each z_self points to its
  -- own slot, no zone stands at or above num_zones, and num_zones_in_use counts the zones.
  pub zone_create_ext-IsRegistry : IsRegistry x r'
  zone_create_ext-IsRegistry = Placed-IsRegistry x r zid' r' v zone_create_ext-Placed

  -- After zone_create_ext succeeds in a well-formed table with an id other than ZONE_ID_ANY, the
  -- new zone is found under that id, none was found there before, and every other zone is as it
  -- was.
  pub zone_by_id-zone_create_ext :
      zid' ≢ x.zone_id_any
      → (zone_by_id x r zid' ≡ ok none)
        × (zone_by_id x r' zid' ≡ ok (some (r'.zones zid')))
        × (r'.zones ≡ update r.zones zid' (r'.zones zid'))
  unfolding zone_by_id
  zone_by_id-zone_create_ext ne =
      let p = zone_create_ext-Placed in
      let same : r'.zones zid' ≡ p.zone =
        ap (λ zs. zs zid') p.zones ∙ update_self r.zones zid' p.zone in
      let owned : (r'.zones zid').self ≡ some zid' = ap (λ (z : Zone). z.self) same ∙ p.own in
      (
        ground (arith, p.free, p.below, p.within),
        ground (arith, owned, p.below, p.within),
        p.zones ∙ ap (λ z. update r.zones zid' z) (sym same),
      )
