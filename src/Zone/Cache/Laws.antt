-- ===== src/Zone/Cache/Laws.antt =====
-- On zcache_free_n and zfree_nozero_n of fuzz/xnu/osfmk/fakes/zalloc.c.
use mathlib.Core.List.{reverse, reverse-append}
use sock_fuzzer.Common.{
  ℕ, zero, suc, ◌≡◌, ◌≢◌, refl, ap, ◌∙◌, Bool, false, List, [], ◌∷◌, ◌++◌, map, arith, ◌==◌,
  if◌then◌else◌, All, All-append_left, All-append_right, suc==zero,
}
use sock_fuzzer.Zone.Stack.{ZoneStack, zstack_pop}
use sock_fuzzer.Zone.Stack.Laws.{
  to_list, IsZoneStack, to_list-zero, zstack_pop-zero, zstack_pop-suc,
}
use sock_fuzzer.Zone.Cache.{
  ZoneCall, libc_free, CacheOps, mark_invalid, release, drain, zcache_free_n, zfree_loop,
  zfree_nozero_n,
}

-- The calls for each element of a list in turn.
unfoldable pub calls_for : (ℕ → List ZoneCall) → List ℕ → List ZoneCall
calls_for calls [] = []
calls_for calls (e ∷ es) = calls e ++ calls_for calls es

pub not_zero : (n : ℕ) → n ≢ 0 → (n == 0) ≡ false
not_zero n h = ground arith

module _ (zstack_empty : ZoneStack → Bool)
    (empty_lem : (s : ZoneStack) → zstack_empty s ≡ (s.count == 0)) where
  pub drain-calls_for :
      (calls : ℕ → List ZoneCall) (n : ℕ) (s : ZoneStack)
      → IsZoneStack s
      → s.count ≡ n
      → ((drain zstack_empty calls n s).0 ≡ calls_for calls (reverse (to_list s)))
        × (to_list (drain zstack_empty calls n s).1 ≡ [])
        × ((drain zstack_empty calls n s).1.count ≡ 0)
  unfolding drain calls_for
  drain-calls_for calls zero s v e = rw (to_list-zero s e) (refl, refl, e)
  drain-calls_for calls (suc n) s v e =
      let (split, w, less) = zstack_pop-suc zstack_empty empty_lem s n v e in
      let ih = drain-calls_for calls n (zstack_pop zstack_empty s).1 w less in
      let full : zstack_empty s ≡ false = empty_lem s ∙ rw e (suc==zero n) in
      rw
        (
          full,
          split,
          reverse-append (to_list (zstack_pop zstack_empty s).1)
              ((zstack_pop zstack_empty s).0 ∷ []),
        )
        (ap (◌++◌ (calls (zstack_pop zstack_empty s).0)) ih.0, ih.1, ih.2)

  -- Freeing a well-formed batch makes, for every element and the newest first, the mark and the
  -- release that the callbacks call for, and leaves the stack empty.
  pub zcache_free_n-drains :
      (s : ZoneStack) (ops : CacheOps)
      → IsZoneStack s
      → let r = zcache_free_n zstack_empty s ops in
        (r.0
          ≡ calls_for
              (λ e. (if ops.op_mark_invalid then mark_invalid e ∷ [] else []) ++ release ops e ∷ [])
              (reverse (to_list s)))
        × (to_list r.1 ≡ [])
        × (r.1.count ≡ 0)
  unfolding zcache_free_n
  zcache_free_n-drains s ops v = drain-calls_for _ s.count s v refl

  pub zfree_loop-frees :
      (n : ℕ) (s : ZoneStack)
      → IsZoneStack s
      → s.count ≡ n
      → All (λ e. e ≢ 0) (to_list s)
      → ((zfree_loop zstack_empty (suc n) s).0 ≡ map libc_free (reverse (to_list s)))
        × ((zfree_loop zstack_empty (suc n) s).1.count ≡ 0)
  unfolding zfree_loop
  zfree_loop-frees zero s v e ne =
      rw (zstack_pop-zero zstack_empty empty_lem s e, to_list-zero s e) (refl, e)
  zfree_loop-frees (suc n) s v e ne =
      let r = zstack_pop zstack_empty s in
      let (split, w, less) = zstack_pop-suc zstack_empty empty_lem s n v e in
      let ne' : All (λ e'. e' ≢ 0) (to_list r.1 ++ r.0 ∷ []) = rw split at ne in
      let top : (r.0 == 0) ≡ false =
        not_zero r.0 (All-append_right (λ e'. e' ≢ 0) (to_list r.1) (r.0 ∷ []) ne').0 in
      let ih =
        zfree_loop-frees n r.1 w less
          (All-append_left (λ e'. e' ≢ 0) (to_list r.1) (r.0 ∷ []) ne') in
      rw (top, split, reverse-append (to_list r.1) (r.0 ∷ [])) (ap (◌∷◌ (libc_free r.0)) ih.0, ih.1)

  -- Of a well-formed batch without NULL every element is freed, the newest first, and the loop ends
  -- with the stack empty.
  pub zfree_nozero_n-frees :
      (s : ZoneStack)
      → IsZoneStack s
      → All (λ e. e ≢ 0) (to_list s)
      → ((zfree_nozero_n zstack_empty s).0 ≡ map libc_free (reverse (to_list s)))
        × ((zfree_nozero_n zstack_empty s).1.count ≡ 0)
  unfolding zfree_nozero_n
  zfree_nozero_n-frees s v = zfree_loop-frees s.count s v refl
