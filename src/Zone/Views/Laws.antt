-- ===== src/Zone/Views/Laws.antt =====
-- On the startup of zone views by fuzz/xnu/osfmk/fakes/zalloc.c.
use sock_fuzzer.Common.{
  ℕ, suc, Bool, true, false, ◌&&◌, not, Option, none, some, List, [], ◌∷◌, length, ok, ◌>>=◌, ltb,
  ◌==◌, update, ◌+◌, ◌%◌, ◌^◌, ◌<◌, ◌≡◌, refl, ap, sym, ◌∙◌, subst, arith, Bool-cases, inl, inr,
}
use sock_fuzzer.Zone.Registry.{Registry, Xnu, max_zones}
use sock_fuzzer.Zone.Views.{
  Views, ViewSpec, no_views, spec_zone, in_no_heap, link_view, zone_view_startup_init,
  startup_views,
}
use sock_fuzzer.Zone.Views.Chains.{
  member, Linked, Linked-update, viewed, viewed_added, viewed_none, Linked-is_some,
}

module _ (x : Xnu) (r : Registry) (inner_size : Option ℕ → ℕ) (kalloc_zone : ℕ → Option ℕ) where
  -- The views of each zone, the latest first, when specifications are added to some.
  abbrev pub chain : ViewSpec → (ℕ → List ℕ) → ℕ → List ℕ
  chain spec chains = elim (spec_zone kalloc_zone spec) [
    | none ↦ chains
    | some z ↦ update chains z (spec.zv_view ∷ chains z)
  ]

  abbrev pub chain_all : List ViewSpec → (ℕ → List ℕ) → ℕ → List ℕ
  chain_all [] chains = chains
  chain_all (spec ∷ specs) chains = chain_all specs (chain spec chains)

  -- The zone of a specification is one of zone_array, and its elements are large enough.
  abbrev pub fits : ViewSpec → Bool
  fits spec = elim (spec_zone kalloc_zone spec) [
    | none ↦ false
    | some z ↦ ltb z max_zones && not (ltb (inner_size (some z)) spec.zv_size)
  ]

  -- All fit, and none has a view that was used before.
  abbrev pub startable : List ViewSpec → (used : ℕ → Bool) → Bool
  startable [] used = true
  startable (spec ∷ specs) used =
      fits spec && not (used spec.zv_view) && startable specs (update used spec.zv_view true)

  -- What holds after `seen` specifications.
  pub record AreViews (seen : ℕ) (used : ℕ → Bool) (chains : ℕ → List ℕ) (v : Views) : Type 0 where
    pub linked : (z : ℕ) → Linked v.zv_next (v.z_views z) (chains z)
    pub known : (z view : ℕ) → member view (chains z) ≡ true → used view ≡ true
    pub of_zone : (z view : ℕ) → member view (chains z) ≡ true → v.zv_zone view ≡ some z
    pub counted : v.zone_view_count ≡ (seen + viewed (in_no_heap x r) chains max_zones) % 2 ^ 32

  Linked-on :
      (view z z' : ℕ) (zv_next z_views : ℕ → Option ℕ) (chains : ℕ → List ℕ)
      → ((z' : ℕ) → member view (chains z') ≡ false)
      → ((z' : ℕ) → Linked zv_next (z_views z') (chains z'))
      → Linked
          (update zv_next view (z_views z))
          (update z_views z (some view) z')
          (update chains z (view ∷ chains z) z')
  Linked-on view z z' zv_next z_views chains apart linked =
      let kept : (w : ℕ) → Linked (update zv_next view (z_views z)) (z_views w) (chains w) =
        λ w. Linked-update zv_next view (z_views z) (z_views w) (chains w) (apart w) (linked w) in
      elim (Bool-cases (z' == z)) [
        | inl here ↦ rw here (
          refl,
          subst (λ l. Linked (update zv_next view (z_views z)) l (chains z)) (ground arith)
              (kept z),
        )
        | inr away ↦ rw away (kept z')
      ]

  link_view-AreViews :
      (seen : ℕ) (used : ℕ → Bool) (chains : ℕ → List ℕ) (v : Views) (view z : ℕ)
      → AreViews seen used chains v
      → used view ≡ false
      → z < max_zones
      → AreViews
          (suc seen)
          (update used view true)
          (update chains z (view ∷ chains z))
          (link_view x r view z v)
  unfolding link_view
  link_view-AreViews seen used chains v view z a new below =
      let apart : (z' : ℕ) → member view (chains z') ≡ false =
        λ z'. ground (arith, a.known z' view) in
      let head = Linked-is_some v.zv_next (v.z_views z) (chains z) (a.linked z) in
      let more = viewed_added (in_no_heap x r) chains z view max_zones below in
      record {
        linked = λ z'. Linked-on view z z' v.zv_next v.z_views chains apart a.linked;
        known = λ z' view' h. ground (arith, a.known z' view');
        of_zone = λ z' view' h. elim (Bool-cases (view' == view)) [
          | inl same ↦ elim (Bool-cases (z' == z)) [
            | inl here ↦ ground (arith, here, same)
            | inr away ↦ ground (arith, away, same, apart z')
          ]
          | inr other ↦ ground (arith, a.of_zone z' view')
        ];
        counted = ground (arith, a.counted, head, more);
      }

  step-AreViews :
      (seen : ℕ) (used : ℕ → Bool) (chains : ℕ → List ℕ) (v : Views) (spec : ViewSpec)
      → AreViews seen used chains v
      → used spec.zv_view ≡ false
      → fits spec ≡ true
      → (v' : Views) × (zone_view_startup_init x r inner_size kalloc_zone spec v ≡ ok v')
        × AreViews (suc seen) (update used spec.zv_view true) (chain spec chains) v'
  unfolding zone_view_startup_init
  step-AreViews seen used chains v spec a new fit = go (spec_zone kalloc_zone spec) refl
    where
      go :
          (zone : Option ℕ)
          → spec_zone kalloc_zone spec ≡ zone
          → (v' : Views) × (zone_view_startup_init x r inner_size kalloc_zone spec v ≡ ok v')
            × AreViews (suc seen) (update used spec.zv_view true) (chain spec chains) v'
      go none e = absurd (ground (arith, fit, e))
      go (some z) e =
          let holds =
            link_view-AreViews seen used chains v spec.zv_view z a new (ground (arith, fit, e)) in
          (
            link_view x r spec.zv_view z v,
            ground (arith, fit, e),
            subst
                (λ zone.
                  AreViews (suc seen) (update used spec.zv_view true)
                    (elim zone [
                      | none ↦ chains
                      | some z' ↦ update chains z' (spec.zv_view ∷ chains z')
                    ])
                    (link_view x r spec.zv_view z v))
                (sym e) holds,
          )

  startup_views-AreViews_from :
      (specs : List ViewSpec) (seen : ℕ) (used : ℕ → Bool) (chains : ℕ → List ℕ) (v : Views)
      → AreViews seen used chains v
      → startable specs used ≡ true
      → (v' : Views) × (startup_views x r inner_size kalloc_zone specs v ≡ ok v')
        × (used' : ℕ → Bool) × AreViews (seen + length specs) used' (chain_all specs chains) v'
  unfolding startup_views
  startup_views-AreViews_from [] seen used chains v a h =
      (v, refl, used, subst (λ n. AreViews n used chains v) (omega arith) a)
  startup_views-AreViews_from (spec ∷ specs) seen used chains v a h =
      let (v₁, taken, a₁) = step-AreViews seen used chains v spec a (ground arith) (ground arith) in
      let (v', rest, used', a') =
        startup_views-AreViews_from specs (suc seen) (update used spec.zv_view true)
          (chain spec chains) v₁ a₁ (ground arith) in
      (
        v',
        ap (λ o. o >>= startup_views x r inner_size kalloc_zone specs) taken ∙ rest,
        used',
        subst (λ n. AreViews n used' (chain_all specs (chain spec chains)) v') (omega arith) a',
      )

  -- When every specification has a zone of the table whose elements are large enough for it, and no two have
  -- the same view, startup ends without an abort, and afterwards the links from each zone go through the views
  -- that were specified for it, the latest first, and end; each of these views refers back to the zone; and
  -- zone_view_count is the number of views, and one more for each zone that has a view and whose z_kheap_id is KHEAP_ID_NONE,
  -- in 32 bits.
  pub startup_views-Linked :
      (specs : List ViewSpec)
      → startable specs (λ view. false) ≡ true
      → (v : Views) × (startup_views x r inner_size kalloc_zone specs no_views ≡ ok v)
        × ((z : ℕ) → Linked v.zv_next (v.z_views z) (chain_all specs (λ z'. []) z))
        × ((z view : ℕ)
            → member view (chain_all specs (λ z'. []) z) ≡ true
            → v.zv_zone view ≡ some z)
        × (v.zone_view_count
            ≡ (length specs
                + viewed
                    (λ z. (r.security z).kheap_id == x.kheap_id_none)
                    (chain_all specs (λ z'. []))
                    max_zones)
              % 2 ^ 32)
  startup_views-Linked specs h =
      let start : AreViews 0 (λ view. false) (λ z. []) no_views = record {
        linked = λ z. refl;
        known = λ z view e. e;
        of_zone = λ z view e. absurd (ground (arith, e));
        counted = rw (viewed_none (in_no_heap x r) max_zones) refl;
      } in
      let (v, done, used, a) =
        startup_views-AreViews_from specs 0 (λ view. false) (λ z. []) no_views start h in
      (v, done, a.linked, a.of_zone, a.counted ∙ omega arith)
