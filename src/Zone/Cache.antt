-- ===== src/Zone/Cache.antt =====
-- The batch functions of fuzz/xnu/osfmk/fakes/zalloc.c: zcache_alloc_n, zcache_free_n, zalloc_n and
-- zfree_nozero_n. What they ask of libc, of the hypercalls and of the zone's callbacks is a list of
-- calls, oldest first; what these answer is an argument.
pub mod Laws
pub mod Batch
pub mod Fuzzed
use sock_fuzzer.Common.{
  ℕ, zero, suc, ◌+◌, Bool, true, false, Option, none, some, List, [], ◌∷◌, ◌++◌, Outcome, ok,
  if◌then◌else◌, ◌==◌, ◌>>=◌,
}
use sock_fuzzer.Zone.Stack.{ZoneStack, empty_stack, zstack_push, zstack_pop}
use sock_fuzzer.Zone.Registry.{Registry, Xnu, Zone, zone_by_id}

-- Which members of zone_cache_ops_t are not null.
pub record CacheOps : Type 0 where
  pub op_alloc : Bool
  pub op_free : Bool
  pub op_mark_valid : Bool
  pub op_mark_invalid : Bool

-- The element comes last; 0 is NULL.
pub data ZoneCall : Type 0 where
  ops_alloc : (elem : ℕ) → ZoneCall
  calloc : (size elem : ℕ) → ZoneCall
  mark_valid mark_invalid ops_free libc_free : (elem : ℕ) → ZoneCall
  draw : (value : ℕ) → ZoneCall

-- What round `i` of a loop meets: the number drawn by GetFuzzedUint32InRange(0, 9), the element that
-- the allocation gives, and how the realloc of zstack_push ends.
pub record Supply : Type 0 where
  pub drawn : ℕ
  pub elem : ℕ
  pub grown : Bool
  pub junk : ℕ

abbrev pub release : CacheOps → ℕ → ZoneCall
release ops elem = if ops.op_free then ops_free elem else libc_free elem

module _ (zstack_empty : ZoneStack → Bool) where
  -- `while (!zstack_empty(stack))`: pop, and make the calls that `calls` names for the element.
  -- Each pop lowers z_count, which is the number of rounds given.
  unfoldable pub drain :
      (calls : ℕ → List ZoneCall) → (rounds : ℕ) → ZoneStack → List ZoneCall × ZoneStack
  drain calls zero s = ([], s)
  drain calls (suc rounds) s =
      let (elem, s') = zstack_pop zstack_empty s in
      let rest = drain calls rounds s' in
      if zstack_empty s then ([], s) else (calls elem ++ rest.0, rest.1)

  unfoldable pub zcache_alloc_loop :
      CacheOps
      → (size : ℕ) → (supply : ℕ → Supply) → (rounds i : ℕ) → ZoneStack
      → List ZoneCall × ZoneStack
  zcache_alloc_loop ops size supply zero i s = ([], s)
  zcache_alloc_loop ops size supply (suc rounds) i s =
      let got = supply i in
      let alloc = if ops.op_alloc then ops_alloc got.elem else calloc size got.elem in
      let undone = drain (λ e. release ops e ∷ []) s.count s in
      let marks = if ops.op_mark_valid then mark_valid got.elem ∷ [] else [] in
      let rest =
        zcache_alloc_loop ops size supply rounds (i + 1)
          (zstack_push got.grown got.junk s got.elem) in
      if got.elem == 0 then (alloc ∷ undone.0, undone.1) else (alloc ∷ marks ++ rest.0, rest.1)

  unfoldable pub zcache_alloc_n :
      Xnu
      → Registry
      → (zone_id count : ℕ) → CacheOps
      → (supply : ℕ → Supply) → Outcome (List ZoneCall × ZoneStack)
  zcache_alloc_n x r zone_id count ops supply = do
    zone ← zone_by_id x r zone_id
    ok (elim zone [
      | none ↦ ([], empty_stack)
      | some z ↦ zcache_alloc_loop ops z.elem_size supply count 0 empty_stack
    ])

  unfoldable pub zcache_free_n : ZoneStack → CacheOps → List ZoneCall × ZoneStack
  zcache_free_n s ops =
      drain (λ e. (if ops.op_mark_invalid then mark_invalid e ∷ [] else []) ++ release ops e ∷ [])
        s.count s

  -- `no_fail` is the Z_NOFAIL flag.
  unfoldable pub zalloc_loop :
      (no_fail : Bool)
      → (size : ℕ) → (supply : ℕ → Supply) → (rounds i : ℕ) → ZoneStack
      → List ZoneCall × ZoneStack
  zalloc_loop no_fail size supply zero i s = ([], s)
  zalloc_loop no_fail size supply (suc rounds) i s =
      let got = supply i in
      let tried = if no_fail then true else got.drawn == 0 in
      let elem = if tried then got.elem else 0 in
      let calls =
        (if no_fail then [] else draw got.drawn ∷ [])
        ++ (if tried then calloc size got.elem ∷ [] else []) in
      let rest =
        zalloc_loop no_fail size supply rounds (i + 1) (zstack_push got.grown got.junk s elem) in
      if elem == 0 then (calls, s) else (calls ++ rest.0, rest.1)

  unfoldable pub zalloc_n :
      Xnu
      → Registry
      → (zone_id count : ℕ) → (no_fail : Bool) → (supply : ℕ → Supply)
      → Outcome (List ZoneCall × ZoneStack)
  zalloc_n x r zone_id count no_fail supply = do
    zone ← zone_by_id x r zone_id
    ok (elim zone [
      | none ↦ ([], empty_stack)
      | some z ↦ zalloc_loop no_fail z.elem_size supply count 0 empty_stack
    ])

  -- `while ((elem = zstack_pop(&stack)) != NULL) free(elem)`. One round more than z_count, for the
  -- pop that ends the loop.
  unfoldable pub zfree_loop : (rounds : ℕ) → ZoneStack → List ZoneCall × ZoneStack
  zfree_loop zero s = ([], s)
  zfree_loop (suc rounds) s =
      let (elem, s') = zstack_pop zstack_empty s in
      let rest = zfree_loop rounds s' in
      if elem == 0 then ([], s') else (libc_free elem ∷ rest.0, rest.1)

  unfoldable pub zfree_nozero_n : ZoneStack → List ZoneCall × ZoneStack
  zfree_nozero_n s = zfree_loop (suc s.count) s
