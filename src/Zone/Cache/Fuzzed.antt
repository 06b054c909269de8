-- ===== src/Zone/Cache/Fuzzed.antt =====
-- On zalloc_n of fuzz/xnu/osfmk/fakes/zalloc.c.
use sock_fuzzer.Common.{
  ℕ, zero, suc, ◌+◌, ◌≡◌, refl, sym, Bool, true, not, ◌&&◌, ◌||◌, List, [], ◌∷◌, ◌++◌, arith, ◌==◌,
  if◌then◌else◌, append-nil, append_assoc, some, ok, Bool-cases, inl, inr,
}
use sock_fuzzer.Zone.Stack.{ZoneStack, empty_stack, zstack_push}
use sock_fuzzer.Zone.Stack.Laws.{to_list, IsZoneStack, zstack_push-grown, empty_stack-IsZoneStack}
use sock_fuzzer.Zone.Registry.{Registry, Xnu, Zone, zone_by_id}
use sock_fuzzer.Zone.Cache.{ZoneCall, Supply, zalloc_loop, zalloc_n}
use sock_fuzzer.Zone.Cache.Batch.{elems}

-- Whether a round gives an element: Z_NOFAIL is set or the number drawn is 0, and calloc gives one.
abbrev pub gives : (no_fail : Bool) → Supply → Bool
gives no_fail got = (no_fail || (got.drawn == 0)) && not (got.elem == 0)

-- How many rounds in a row give an element.
unfoldable pub granted : (no_fail : Bool) → (ℕ → Supply) → (count i : ℕ) → ℕ
granted no_fail supply zero i = 0
granted no_fail supply (suc n) i =
    if gives no_fail (supply i) then suc (granted no_fail supply n (i + 1)) else 0

module _ (supply : ℕ → Supply) (grown : (i : ℕ) → (supply i).grown ≡ true) (no_fail : Bool)
    (size : ℕ) where
  zalloc_step :
      (zstack_empty : ZoneStack → Bool) (n i : ℕ) (s : ZoneStack)
      → (zalloc_loop zstack_empty no_fail size supply (suc n) i s).1 ≡ (
          if gives no_fail (supply i)
          then (zalloc_loop zstack_empty no_fail size supply n
              (i + 1)
              (zstack_push (supply i).grown (supply i).junk s (supply i).elem)).1
          else s)
  unfolding zalloc_loop
  zalloc_step zstack_empty n i s = ground arith

  zalloc_loop-granted :
      (zstack_empty : ZoneStack → Bool) (n i : ℕ) (s : ZoneStack)
      → IsZoneStack s
      → to_list (zalloc_loop zstack_empty no_fail size supply n i s).1
        ≡ to_list s ++ elems supply (granted no_fail supply n i) i
  unfolding granted zalloc_loop
  zalloc_loop-granted zstack_empty zero i s v = sym (append-nil (to_list s))
  zalloc_loop-granted zstack_empty (suc n) i s v =
      let (w, pushed) = zstack_push-grown (supply i).junk s (supply i).elem v in
      let ih =
        zalloc_loop-granted zstack_empty n (i + 1)
          (zstack_push true (supply i).junk s (supply i).elem) w in
      elim (Bool-cases (gives no_fail (supply i))) [
        | inl more ↦
            rw (zalloc_step zstack_empty n i s, more, grown i, ih, pushed)
              (append_assoc (to_list s) ((supply i).elem ∷ []) _)
        | inr over ↦ rw (zalloc_step zstack_empty n i s, over) (sym (append-nil (to_list s)))
      ]

-- For the id of a zone, and with memory for the stack at hand, zalloc_n gives the elements of the
-- rounds before the first one in which the fuzzer draws anything but 0 without Z_NOFAIL, or calloc
-- gives NULL. What it has got before that round it keeps, unlike zcache_alloc_n.
pub zalloc_n-granted :
    (zstack_empty : ZoneStack → Bool) (x : Xnu) (r : Registry) (zone_id count : ℕ) (no_fail : Bool)
    (supply : ℕ → Supply) (zone : Zone)
    → ((i : ℕ) → (supply i).grown ≡ true)
    → zone_by_id x r zone_id ≡ ok (some zone)
    → (b : List ZoneCall × ZoneStack) × (zalloc_n zstack_empty x r zone_id count no_fail supply
        ≡ ok b)
      × (to_list b.1 ≡ elems supply (granted no_fail supply count 0) 0)
unfolding zalloc_n
zalloc_n-granted zstack_empty x r zone_id count no_fail supply zone grown e = (
  zalloc_loop zstack_empty no_fail zone.elem_size supply count 0 empty_stack,
  rw e refl,
  zalloc_loop-granted supply grown no_fail zone.elem_size zstack_empty count 0 empty_stack
      empty_stack-IsZoneStack,
)
