-- ===== src/Zone/Views.antt =====
-- zone_view_startup_init of fuzz/xnu/osfmk/fakes/zalloc.c. A zone_view_t is a number, a zone_t the index of its zone
-- in zone_array; what kalloc_zone_for_size and zone_elem_inner_size of XNU answer are arguments. A startup
-- object runs each specification once.
pub mod Chains
pub mod Laws
mod Tests
use sock_fuzzer.Common.{
  ℕ, Bool, true, false, ◌&&◌, not, Option, none, some, List, [], ◌∷◌, Outcome, ok, stop, aborted,
  assert_failed, ◌>>=◌, if◌then◌else◌, ltb, ◌==◌, update, is_some, ◌+◌, ◌%◌, ◌^◌,
}
use sock_fuzzer.Zone.Registry.{Registry, Xnu}

-- z_views of each zone, zv_next and zv_zone of each view, and zone_view_count.
pub record Views : Type 0 where
  pub z_views : ℕ → Option ℕ
  pub zv_next : ℕ → Option ℕ
  pub zv_zone : ℕ → Option ℕ
  pub zone_view_count : ℕ

pub data ViewHeap : Type 0 where
  data_buffers other_heap : ViewHeap

-- zone_view_startup_spec: `zv_zone` is the zone that the field points to.
pub record ViewSpec : Type 0 where
  pub zv_view : ℕ
  pub zv_heapid : ViewHeap
  pub zv_size : ℕ
  pub zv_zone : Option ℕ

abbrev pub no_views : Views
no_views = record {
  z_views = λ z. none;
  zv_next = λ view. none;
  zv_zone = λ view. none;
  zone_view_count = 0;
}

-- The zone that a specification asks for: a large enough one of the heap for data, or its own.
abbrev pub spec_zone : (kalloc_zone : ℕ → Option ℕ) → ViewSpec → Option ℕ
spec_zone kalloc_zone spec = elim spec.zv_heapid [
  | data_buffers ↦ kalloc_zone spec.zv_size
  | other_heap ↦ spec.zv_zone
]

module _ (x : Xnu) (r : Registry) where
  abbrev pub in_no_heap : ℕ → Bool
  in_no_heap z = (r.security z).kheap_id == x.kheap_id_none

  -- From `zv->zv_zone = z` on.
  unfoldable pub link_view : (view z : ℕ) → Views → Views
  link_view view z v = record v {
    zv_zone = update v.zv_zone view (some z);
    zv_next = update v.zv_next view (v.z_views z);
    zone_view_count =
        (if not (is_some (v.z_views z)) && in_no_heap z
          then v.zone_view_count + 2
          else v.zone_view_count + 1)
        % 2 ^ 32;
    z_views = update v.z_views z (some view);
  }

  module _ (inner_size : Option ℕ → ℕ) (kalloc_zone : ℕ → Option ℕ) where
    unfoldable pub zone_view_startup_init : ViewSpec → Views → Outcome Views
    zone_view_startup_init spec v =
        if ltb (inner_size (spec_zone kalloc_zone spec)) spec.zv_size
        then stop aborted
        else (elim (spec_zone kalloc_zone spec) [
          | none ↦ stop assert_failed
          | some z ↦ ok (link_view spec.zv_view z v)
        ])

    unfoldable pub startup_views : List ViewSpec → Views → Outcome Views
    startup_views [] v = ok v
    startup_views (spec ∷ specs) v = zone_view_startup_init spec v >>= startup_views specs
