-- ===== src/Zone/Cache/Batch.antt =====
-- On zcache_alloc_n of fuzz/xnu/osfmk/fakes/zalloc.c.
use mathlib.Core.List.{reverse}
use native.Mathlib.Nat.{add-zero}
use sock_fuzzer.Common.{
  ℕ, zero, suc, ◌+◌, ◌<◌, ◌≡◌, ◌≢◌, refl, ap, sym, subst, ◌∙◌, Bool, true, List, [], ◌∷◌, ◌++◌, map,
  arith, ◌==◌, if◌then◌else◌, All, append-nil, append_assoc, some, ok,
}
use sock_fuzzer.Zone.Stack.{ZoneStack, empty_stack, zstack_push}
use sock_fuzzer.Zone.Stack.Laws.{to_list, IsZoneStack, zstack_push-grown, empty_stack-IsZoneStack}
use sock_fuzzer.Zone.Registry.{Registry, Xnu, Zone, zone_by_id}
use sock_fuzzer.Zone.Cache.{
  ZoneCall, ops_alloc, calloc, mark_valid, CacheOps, Supply, release, zcache_alloc_loop,
  zcache_alloc_n,
}
use sock_fuzzer.Zone.Cache.Laws.{calls_for, drain-calls_for, not_zero}

-- The elements that the allocator gives in `n` rounds from round `i` on.
abbrev pub elems : (ℕ → Supply) → ℕ → ℕ → List ℕ
elems supply zero i = []
elems supply (suc n) i = (supply i).elem ∷ elems supply n (i + 1)

-- The calls that get one element ready.
abbrev pub alloc_calls : CacheOps → ℕ → ℕ → List ZoneCall
alloc_calls ops size e =
    (if ops.op_alloc then ops_alloc e else calloc size e)
    ∷ (if ops.op_mark_valid then mark_valid e ∷ [] else [])

calls_for-map : (f : ℕ → ZoneCall) (xs : List ℕ) → calls_for (λ e. f e ∷ []) xs ≡ map f xs
unfolding calls_for
calls_for-map f [] = refl
calls_for-map f (x ∷ xs) = ap (◌∷◌ (f x)) (calls_for-map f xs)

module _ (zstack_empty : ZoneStack → Bool)
    (empty_lem : (s : ZoneStack) → zstack_empty s ≡ (s.count == 0)) (supply : ℕ → Supply)
    (grown : (i : ℕ) → (supply i).grown ≡ true) (ops : CacheOps) where
  push_grown :
      (i : ℕ) (s : ZoneStack)
      → IsZoneStack s
      → IsZoneStack (zstack_push (supply i).grown (supply i).junk s (supply i).elem)
        × (to_list (zstack_push (supply i).grown (supply i).junk s (supply i).elem)
            ≡ to_list s ++ (supply i).elem ∷ [])
  push_grown i s v = rw (grown i) (zstack_push-grown (supply i).junk s (supply i).elem v)

  alloc_loop_full :
      (size n i : ℕ) (s : ZoneStack)
      → IsZoneStack s
      → All (λ e. e ≢ 0) (elems supply n i)
      → let r = zcache_alloc_loop zstack_empty ops size supply n i s in
        (to_list r.1 ≡ to_list s ++ elems supply n i)
        × (r.0 ≡ calls_for (alloc_calls ops size) (elems supply n i))
  unfolding zcache_alloc_loop calls_for
  alloc_loop_full size zero i s v ne = (sym (append-nil (to_list s)), refl)
  alloc_loop_full size (suc n) i s v ne =
      let (w, pushed) = push_grown i s v in
      let ih = alloc_loop_full size n (i + 1) _ w ne.1 in
      rw (not_zero (supply i).elem ne.0) (
        ih.0 ∙ ap (λ l. l ++ elems supply n (i + 1)) pushed ∙ append_assoc (to_list s) _ _,
        ap (◌++◌ (alloc_calls ops size (supply i).elem)) ih.1,
      )

  alloc_loop_failed :
      (size k m i : ℕ) (s : ZoneStack)
      → IsZoneStack s
      → k < m
      → All (λ e. e ≢ 0) (elems supply k i)
      → (supply (i + k)).elem ≡ 0
      → let r = zcache_alloc_loop zstack_empty ops size supply m i s in
        (to_list r.1 ≡ [])
        × (r.0
            ≡ calls_for (alloc_calls ops size) (elems supply k i)
              ++ (if ops.op_alloc then ops_alloc 0 else calloc size 0)
                ∷ map (release ops) (reverse (to_list s ++ elems supply k i)))
  unfolding zcache_alloc_loop calls_for
  alloc_loop_failed size k zero i s v lt ne null = elim lt [ ]
  alloc_loop_failed size zero (suc m) i s v lt ne null =
      let null' : (supply i).elem ≡ 0 = rw add-zero at null in
      let d = drain-calls_for zstack_empty empty_lem (λ e. release ops e ∷ []) s.count s v refl in
      rw (null', append-nil (to_list s))
        (
          d.1,
          ap (◌∷◌ (if ops.op_alloc then ops_alloc 0 else calloc size 0))
              (d.0 ∙ calls_for-map (release ops) (reverse (to_list s))),
        )
  alloc_loop_failed size (suc k) (suc m) i s v lt ne null =
      let (w, pushed) = push_grown i s v in
      let null' : (supply (i + 1 + k)).elem ≡ 0 =
        subst (λ j. (supply j).elem ≡ 0) (omega arith) null in
      let ih = alloc_loop_failed size k m (i + 1) _ w (omega arith) ne.1 null' in
      let all : to_list (zstack_push (supply i).grown (supply i).junk s (supply i).elem)
            ++ elems supply k (i + 1)
          ≡ to_list s ++ elems supply (suc k) i =
        ap (λ l. l ++ elems supply k (i + 1)) pushed ∙ append_assoc (to_list s) _ _ in
      rw (not_zero (supply i).elem ne.0) (
        ih.0,
        ap (◌++◌ (alloc_calls ops size (supply i).elem)) (rw all at ih.1)
            ∙ sym (append_assoc (alloc_calls ops size (supply i).elem) _ _),
      )

  -- For the id of a zone, and with memory for the stack at hand, a batch in which no allocation
  -- fails has the elements in the order of their allocation, each marked valid where the callback
  -- is given.
  pub zcache_alloc_n_full :
      (x : Xnu) (r : Registry) (zone_id count : ℕ) (zone : Zone)
      → zone_by_id x r zone_id ≡ ok (some zone)
      → All (λ e. e ≢ 0) (elems supply count 0)
      → (b : List ZoneCall × ZoneStack) × (zcache_alloc_n zstack_empty x r zone_id count ops supply
          ≡ ok b)
        × (to_list b.1 ≡ elems supply count 0)
        × (b.0 ≡ calls_for (alloc_calls ops zone.elem_size) (elems supply count 0))
  unfolding zcache_alloc_n
  zcache_alloc_n_full x r zone_id count zone e ne =
      let h = alloc_loop_full zone.elem_size count 0 empty_stack empty_stack-IsZoneStack ne in
      (
        zcache_alloc_loop zstack_empty ops zone.elem_size supply count 0 empty_stack,
        rw e refl,
        h.0,
        h.1,
      )

  -- For the id of a zone, and with memory for the stack at hand, if an allocation of the batch
  -- fails, every element obtained before it is released, the newest first, and the stack that is
  -- returned is empty.
  pub zcache_alloc_n_failed :
      (x : Xnu) (r : Registry) (zone_id count k : ℕ) (zone : Zone)
      → zone_by_id x r zone_id ≡ ok (some zone)
      → k < count
      → All (λ e. e ≢ 0) (elems supply k 0)
      → (supply k).elem ≡ 0
      → (b : List ZoneCall × ZoneStack) × (zcache_alloc_n zstack_empty x r zone_id count ops supply
          ≡ ok b)
        × (to_list b.1 ≡ [])
        × (b.0
            ≡ calls_for (alloc_calls ops zone.elem_size) (elems supply k 0)
              ++ (if ops.op_alloc then ops_alloc 0 else calloc zone.elem_size 0)
                ∷ map (release ops) (reverse (elems supply k 0)))
  unfolding zcache_alloc_n
  zcache_alloc_n_failed x r zone_id count k zone e lt ne null =
      let null' : (supply (0 + k)).elem ≡ 0 = subst (λ j. (supply j).elem ≡ 0) (omega arith) null in
      let h =
        alloc_loop_failed zone.elem_size k count 0 empty_stack empty_stack-IsZoneStack lt ne
          null' in
      (
        zcache_alloc_loop zstack_empty ops zone.elem_size supply count 0 empty_stack,
        rw e refl,
        h.0,
        h.1,
      )
