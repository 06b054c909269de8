-- ===== src/Mcache.antt =====
-- The caches of fuzz/xnu/bsd/fakes/mcache.c. Objects are addresses, 0 is NULL, and `links` gives the
-- obj_next of each address. Calls of libc and of a cache's slab functions are recorded, oldest first.
pub mod Laws
mod Tests
use sock_fuzzer.Common.{
  ℕ, zero, suc, ◌+◌, ◌≤◌, Bool, true, false, ◌&&◌, ◌||◌, List, [], ◌∷◌, ◌++◌, if◌then◌else◌, ◌==◌,
  leb, update,
}

-- mc_bufsize, whether mc_slab_alloc and mc_slab_free are set, and mc_private as an int.
pub record Mcache : Type 0 where
  pub bufsize : ℕ
  pub slab_alloc : Bool
  pub slab_free : Bool
  pub private : ℕ

pub data McacheCall : Type 0 where
  aligned_alloc : (alignment size obj : ℕ) → McacheCall
  malloc : (size obj : ℕ) → McacheCall
  mbuf_init : (obj : ℕ) → McacheCall
  call_slab_alloc : (private num : ℕ) → McacheCall
  call_slab_free : (private list : ℕ) → McacheCall
  libc_free : (obj : ℕ) → McacheCall

-- `cache` is the address of the new cache, cast to int.
abbrev pub mcache_create : (cache bufsize : ℕ) → Mcache
mcache_create cache bufsize = record {
  bufsize = bufsize;
  slab_alloc = false;
  slab_free = false;
  private = cache;
}

abbrev pub mcache_create_ext : (bufsize : ℕ) → (allocfn freefn : Bool) → (arg : ℕ) → Mcache
mcache_create_ext bufsize allocfn freefn arg = record {
  bufsize = bufsize;
  slab_alloc = allocfn;
  slab_free = freefn;
  private = arg;
}

-- MC_MBUF_CL, MC_MBUF_BIGCL and MC_MBUF_16KCL of mbuf_class_t; MC_MBUF is 0.
abbrev pub is_composite : Mcache → Bool
is_composite c = (c.private == 4) || (c.private == 5) || (c.private == 6)

-- What is allocated: the calls, the number returned, the list, and the links of the objects.
pub record Allocated : Type 0 where
  pub calls : List McacheCall
  pub num : ℕ
  pub list : ℕ
  pub links : ℕ → ℕ

abbrev pub object_calls : Mcache → (obj : ℕ) → List McacheCall
object_calls c obj =
    (if c.bufsize == 256 then aligned_alloc c.bufsize c.bufsize obj else malloc c.bufsize obj)
    ∷ (if c.private == 0 then mbuf_init obj ∷ [] else [])

-- The loop, from round `i` on: `supply i` is the object that libc gives in that round.
unfoldable pub alloc_loop :
    Mcache
    → (supply : ℕ → ℕ) → (rounds i next : ℕ) → (links : ℕ → ℕ) → List McacheCall × ℕ × (ℕ → ℕ)
alloc_loop c supply zero i next links = ([], next, links)
alloc_loop c supply (suc n) i next links =
    let rest = alloc_loop c supply n (i + 1) (supply i) (update links (supply i) next) in
    (object_calls c (supply i) ++ rest.0, rest.1, rest.2)

-- `slab` is what mc_slab_alloc gives.
unfoldable pub mcache_alloc_ext :
    Mcache → (slab : Allocated) → (supply : ℕ → ℕ) → (num : ℕ) → (links : ℕ → ℕ) → Allocated
mcache_alloc_ext c slab supply num links =
    let looped = alloc_loop c supply num 0 0 links in
    if c.slab_alloc && is_composite c
    then record slab { calls = call_slab_alloc c.private num ∷ [] }
    else record { calls = looped.0; num = num; list = looped.1; links = looped.2 }

-- mcache_alloc gives the list of one object.
unfoldable pub mcache_alloc :
    Mcache → (slab : Allocated) → (supply : ℕ → ℕ) → (links : ℕ → ℕ) → Allocated
unfolding mcache_alloc_ext
mcache_alloc c slab supply links = mcache_alloc_ext c slab supply 1 links

-- `while (list)`, for at most `rounds` rounds; the second component is the list that is left.
unfoldable pub free_loop : (rounds list : ℕ) → (links : ℕ → ℕ) → List McacheCall × ℕ
free_loop zero list links = ([], list)
free_loop (suc n) list links =
    let rest = free_loop n (links list) links in
    if list == 0 then ([], 0) else (libc_free list ∷ rest.0, rest.1)

unfoldable pub mcache_free_ext : Mcache → (rounds list : ℕ) → (links : ℕ → ℕ) → List McacheCall × ℕ
mcache_free_ext c rounds list links =
    if c.slab_free && is_composite c
    then (call_slab_free c.private list ∷ [], 0)
    else free_loop rounds list links

unfoldable pub mcache_free : Mcache → (rounds buf : ℕ) → (links : ℕ → ℕ) → List McacheCall × ℕ
unfolding mcache_free_ext
mcache_free c rounds buf links = mcache_free_ext c rounds buf (update links buf 0)
