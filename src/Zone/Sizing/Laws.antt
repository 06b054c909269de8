-- ===== src/Zone/Sizing/Laws.antt =====
-- On zone_elem_adjust_size and zone_get_min_alloc_granule of fuzz/xnu/osfmk/fakes/zalloc.c.
use sock_fuzzer.Common.{
  ℕ, zero, suc, ◌+◌, ◌*◌, ◌/◌, ◌%◌, ◌≤◌, ◌<◌, ◌≡◌, ◌≢◌, refl, false, ok, ltb, leb, ◌==◌, arith,
  Bool-cases, ltb→lt, ltb-false→le, inl, inr,
}
use native.Mathlib.Decide.{dec_le}
use native.Mathlib.Nat.{le_refl, zero-div, mod-eq_of_lt, mod-lt, mul-div_cancel_left, div-add-mod'}
use sock_fuzzer.Zone.Sizing.{
  ZoneFlags, zone_max_alloc_size, zone_elem_adjust_size, fragmentation, granule_loop,
  zone_get_min_alloc_granule,
}

-- For an element of at most 32 KiB the adjusted size is a multiple of eight, is not zero, holds the
-- element, and is the least such size: it is at most any m with these three properties.
pub zone_elem_adjust_size-least :
    (n m : ℕ)
    → n ≤ zone_max_alloc_size
    → m % 8 ≡ 0
    → 0 < m
    → n ≤ m
    → (zone_elem_adjust_size n % 8 ≡ 0)
      × (0 < zone_elem_adjust_size n)
      × (n ≤ zone_elem_adjust_size n)
      × (zone_elem_adjust_size n ≤ m)
unfolding zone_elem_adjust_size
zone_elem_adjust_size-least n m h a b c = (ground arith, ground arith, ground arith, ground arith)

-- What the loop has found after it tried the chunks of up to `tried` pages.
record Best (page_size elem_size tried frag granule : ℕ) : Type 0 where
  pages : ℕ
  positive : 0 < pages
  whole : granule ≡ pages * page_size
  bounded : granule ≤ zone_max_alloc_size
  waste : fragmentation elem_size granule ≡ frag
  least : (j : ℕ) → 0 < j → j ≤ tried → frag ≤ fragmentation elem_size (j * page_size)

-- A chunk of whole pages up to the limit of which the least percentage is left over of all such chunks, with
-- percentages rounded down.
pub record IsGranule (page_size elem_size granule : ℕ) : Type 0 where
  pub pages : ℕ
  pub positive : 0 < pages
  pub whole : granule ≡ pages * page_size
  pub bounded : granule ≤ zone_max_alloc_size
  pub least :
      (j : ℕ)
      → 0 < j
      → j * page_size ≤ zone_max_alloc_size
      → fragmentation elem_size granule ≤ fragmentation elem_size (j * page_size)

eq_suc : (j d : ℕ) → j ≤ suc d → ¬ (j ≤ d) → j ≡ suc d
eq_suc j d h k = omega arith

pages_le : (j d p m : ℕ) → j * p ≤ m → m < suc d * p → j ≤ d
pages_le j d p m h k = grind arith

module _ (page_size elem_size : ℕ) where
  Best-better :
      (d frag granule : ℕ)
      → Best page_size elem_size d frag granule
      → suc d * page_size ≤ zone_max_alloc_size
      → fragmentation elem_size (suc d * page_size) < frag
      → Best page_size elem_size
          (suc d)
          (fragmentation elem_size (suc d * page_size))
          (suc d * page_size)
  Best-better d frag granule b h lt = record {
    pages = suc d;
    positive = omega arith;
    whole = refl;
    bounded = h;
    waste = refl;
    least = λ j p q. elim (dec_le j d) [
      | yes le ↦ omega (arith, lt, b.least j p le)
      | no gt ↦ rw (eq_suc j d q gt) (le_refl _)
    ];
  }

  Best-worse :
      (d frag granule : ℕ)
      → Best page_size elem_size d frag granule
      → frag ≤ fragmentation elem_size (suc d * page_size)
      → Best page_size elem_size (suc d) frag granule
  Best-worse d frag granule b le = record {
    pages = b.pages;
    positive = b.positive;
    whole = b.whole;
    bounded = b.bounded;
    waste = b.waste;
    least =
        λ j p q. elim (dec_le j d) [ yes le ↦ b.least j p le | no gt ↦ rw (eq_suc j d q gt) le ];
  }

  Best-IsGranule :
      (d frag granule : ℕ)
      → Best page_size elem_size d frag granule
      → zone_max_alloc_size < suc d * page_size
      → IsGranule page_size elem_size granule
  Best-IsGranule d frag granule b h = record {
    pages = b.pages;
    positive = b.positive;
    whole = b.whole;
    bounded = b.bounded;
    least = λ j p q. rw b.waste (b.least j p (pages_le j d page_size zone_max_alloc_size q h));
  }

  granule_loop-IsGranule :
      (rounds d a frag granule : ℕ)
      → a ≡ d * page_size
      → 0 < page_size
      → zone_max_alloc_size ≤ rounds + a
      → Best page_size elem_size d frag granule
      → IsGranule page_size elem_size (granule_loop page_size elem_size rounds a frag granule)
  unfolding granule_loop
  granule_loop-IsGranule zero d a frag granule e p f b =
      Best-IsGranule d frag granule b (omega arith)
  granule_loop-IsGranule (suc rounds) d a frag granule e p f b =
      elim (Bool-cases (leb (a + page_size) zone_max_alloc_size)) [
        | inl fits ↦ rw fits (
            let next : a + page_size ≡ suc d * page_size = omega (arith, e) in
            let room : suc d * page_size ≤ zone_max_alloc_size = ground arith in
            rw next (elim (Bool-cases (ltb (fragmentation elem_size (suc d * page_size)) frag)) [
              | inl better ↦ rw better (
                  granule_loop-IsGranule rounds (suc d) (suc d * page_size) _ _ refl p (omega arith)
                    (Best-better d frag granule b room (ltb→lt _ _ better)))
              | inr worse ↦ rw worse (
                  granule_loop-IsGranule rounds (suc d) (suc d * page_size) _ _ refl p (omega arith)
                    (Best-worse d frag granule b (ltb-false→le _ _ worse)))
            ]))
        | inr over ↦ rw over (Best-IsGranule d frag granule b (ground arith))
      ]

first_page-Best :
    (page_size elem_size : ℕ)
    → page_size ≤ zone_max_alloc_size
    → Best page_size elem_size 1 (fragmentation elem_size page_size) page_size
first_page-Best page_size elem_size m = record {
  pages = 1;
  positive = omega arith;
  whole = omega arith;
  bounded = m;
  waste = refl;
  least = λ j p q. let e : j * page_size ≡ page_size = only_page j p q in rw e (le_refl _);
}
  where
    only_page : (j : ℕ) → 0 < j → j ≤ 1 → j * page_size ≡ page_size
    only_page j p q = let e : j ≡ 1 = omega arith in rw e (omega arith)

no_waste : (elem_size n : ℕ) → n % elem_size ≡ 0 → fragmentation elem_size n ≡ 0
no_waste elem_size n e = rw e (zero-div n)

-- For pages of at most 32 KiB, without the per-CPU and read-only flags, an element that does not
-- fill whole pages gets a chunk of whole pages, at most 32 KiB, of which no larger percentage is left over
-- than of any other such chunk. The percentages are compared rounded down, so a chunk of which less than 1%
-- is left over counts as one of which nothing is.
pub zone_get_min_alloc_granule-IsGranule :
    (page_size cpus elem_size : ℕ) (flags : ZoneFlags)
    → 0 < page_size
    → page_size ≤ zone_max_alloc_size
    → flags.percpu ≡ false
    → flags.readonly ≡ false
    → elem_size % page_size ≢ 0
    → (granule : ℕ) × (zone_get_min_alloc_granule page_size cpus elem_size flags ≡ ok granule)
      × IsGranule page_size elem_size granule
unfolding zone_get_min_alloc_granule
zone_get_min_alloc_granule-IsGranule page_size cpus elem_size flags p m np nr ne =
    elim (Bool-cases (page_size % elem_size == 0)) [
      | inl exact ↦ (
        page_size,
        ground arith,
        record {
          pages = 1;
          positive = omega arith;
          whole = omega arith;
          bounded = m;
          least =
              λ j q r. let e = no_waste elem_size page_size (ground arith) in rw e (omega arith);
        },
      )
      | inr rest ↦ (
        granule_loop page_size elem_size zone_max_alloc_size page_size
            (fragmentation elem_size page_size) page_size,
        ground arith,
        granule_loop-IsGranule page_size elem_size _ 1 page_size _ _ (omega arith) p (omega arith)
            (first_page-Best page_size elem_size m),
      )
    ]

fragmentation-small :
    (elem_size granule : ℕ)
    → 0 < granule
    → granule < elem_size
    → fragmentation elem_size granule ≡ 100
fragmentation-small elem_size granule p h = rw (mod-eq_of_lt h) (mul-div_cancel_left 100 p)

fragmentation-lt :
    (elem_size : ℕ)
    → 0 < elem_size
    → elem_size ≤ zone_max_alloc_size
    → fragmentation elem_size zone_max_alloc_size < 100
fragmentation-lt elem_size p h =
    let r : zone_max_alloc_size % elem_size < elem_size = mod-lt _ p in omega arith

positive_product : (a b c : ℕ) → c ≡ a * b → 0 < a → 0 < b → 0 < c
positive_product a b c e p q = grind arith

-- Where whole pages make up 32 KiB, a chunk of least waste holds at least one element, of any size up
-- to 32 KiB.
pub elem_size-le-granule :
    (page_size elem_size granule : ℕ)
    → 0 < page_size
    → zone_max_alloc_size % page_size ≡ 0
    → 0 < elem_size
    → elem_size ≤ zone_max_alloc_size
    → IsGranule page_size elem_size granule
    → elem_size ≤ granule
elem_size-le-granule page_size elem_size granule p d q r g = elim (dec_le elem_size granule) [
  | yes h ↦ h
  | no h ↦ absurd (too_small (omega arith))
]
  where
    pages : ℕ
    pages = zone_max_alloc_size / page_size

    exact : pages * page_size ≡ zone_max_alloc_size
    exact = omega (arith, div-add-mod' zone_max_alloc_size page_size, d)

    positive : 0 < pages
    positive = grind (arith, exact)

    too_small : granule < elem_size → ⊥
    too_small h =
        let pos : 0 < granule = positive_product g.pages page_size granule g.whole g.positive p in
        let best : fragmentation elem_size granule ≤ fragmentation elem_size (pages * page_size) =
          g.least pages positive (omega (arith, exact)) in
        let best' : fragmentation elem_size granule ≤ fragmentation elem_size zone_max_alloc_size =
          rw exact at best in
        omega (
          arith,
          best',
          fragmentation-small elem_size granule pos h,
          fragmentation-lt elem_size q r,
        )
