-- ===== src/Mcache/Laws.antt =====
-- On mcache_alloc_ext and mcache_free_ext of fuzz/xnu/bsd/fakes/mcache.c.
use sock_fuzzer.Common.{
  ℕ, zero, suc, ◌+◌, ◌<◌, ◌≡◌, ◌≢◌, refl, sym, subst, false, List, [], ◌∷◌, map, length, ◌==◌, All,
  arith, update, update_self, update_ne,
}
use sock_fuzzer.Mcache.{
  Mcache, libc_free, Allocated, alloc_loop, mcache_alloc_ext, free_loop, mcache_free_ext,
  mcache_free,
}

-- From `list` the links lead through the objects `xs` to NULL.
abbrev pub IsChain : (ℕ → ℕ) → ℕ → List ℕ → Type 0
IsChain links list [] = list ≡ 0
IsChain links list (x ∷ xs) = (list ≡ x) × (x ≢ 0) × IsChain links (links x) xs

-- The objects of `n` rounds from round `i` on, the newest first, before `older`.
abbrev pub newest_first : (supply : ℕ → ℕ) → (n i : ℕ) → (older : List ℕ) → List ℕ
newest_first supply zero i older = older
newest_first supply (suc n) i older = newest_first supply n (i + 1) (supply i ∷ older)

-- libc gives an object that is not NULL and is not in use in each of these rounds.
abbrev pub AllFresh : (supply : ℕ → ℕ) → (n i : ℕ) → (older : List ℕ) → Type 0
AllFresh supply zero i older = Unit
AllFresh supply (suc n) i older =
    (supply i ≢ 0) × All (λ x. x ≢ supply i) older × AllFresh supply n (i + 1) (supply i ∷ older)

IsChain-update :
    (links : ℕ → ℕ) (list obj next : ℕ) (xs : List ℕ)
    → All (λ x. x ≢ obj) xs
    → IsChain links list xs
    → IsChain (update links obj next) list xs
IsChain-update links list obj next [] h k = k
IsChain-update links list obj next (x ∷ xs) h k = (
  k.0,
  k.1,
  subst (λ l. IsChain (update links obj next) l xs) (sym (update_ne links obj x next h.0))
      (IsChain-update links (links x) obj next xs h.1 k.2),
)

alloc_loop-IsChain :
    (c : Mcache) (supply : ℕ → ℕ) (n i next : ℕ) (links : ℕ → ℕ) (older : List ℕ)
    → AllFresh supply n i older
    → IsChain links next older
    → let r = alloc_loop c supply n i next links in IsChain r.2 r.1 (newest_first supply n i older)
unfolding alloc_loop
alloc_loop-IsChain c supply zero i next links older f k = k
alloc_loop-IsChain c supply (suc n) i next links older f k =
    let links' = update links (supply i) next in
    let older' : IsChain links' (links' (supply i)) older =
      subst (λ l. IsChain links' l older) (sym (update_self links (supply i) next))
        (IsChain-update links next (supply i) next older f.1 k) in
    alloc_loop-IsChain c supply n (i + 1) (supply i) links' (supply i ∷ older) f.2
      (refl, f.0, older')

free_loop-IsChain :
    (xs : List ℕ) (n list : ℕ) (links : ℕ → ℕ)
    → length xs < n
    → IsChain links list xs
    → free_loop n list links ≡ (map libc_free xs, 0)
unfolding free_loop
free_loop-IsChain xs zero list links lt k = absurd (omega arith)
free_loop-IsChain [] (suc n) list links lt k = rw k refl
free_loop-IsChain (x ∷ xs) (suc n) list links lt k =
    let some' : (x == 0) ≡ false = ground (arith, k.1) in
    rw (k.0, some', free_loop-IsChain xs n (links x) links (omega arith) k.2) refl

length-newest_first :
    (supply : ℕ → ℕ) (n i : ℕ) (older : List ℕ)
    → length (newest_first supply n i older) ≡ n + length older
length-newest_first supply zero i older = omega arith
length-newest_first supply (suc n) i older =
    omega (arith, length-newest_first supply n (i + 1) (supply i ∷ older))

-- What a cache without slab functions allocates, while libc gives objects that are not NULL and not
-- in use, it frees again, with as many frees as objects: each object once, the newest first. Freeing
-- ends after at most one round more than there are objects.
pub mcache_free_ext-mcache_alloc_ext :
    (c : Mcache) (slab : Allocated) (supply : ℕ → ℕ) (num rounds : ℕ) (links : ℕ → ℕ)
    → c.slab_alloc ≡ false
    → c.slab_free ≡ false
    → AllFresh supply num 0 []
    → num < rounds
    → let a = mcache_alloc_ext c slab supply num links in
      (a.num ≡ num)
      × (mcache_free_ext c rounds a.list a.links
          ≡ (map libc_free (newest_first supply num 0 []), 0))
      × (length (newest_first supply num 0 []) ≡ num)
unfolding mcache_alloc_ext mcache_free_ext
mcache_free_ext-mcache_alloc_ext c slab supply num rounds links sa sf fresh lt =
    let total : length (newest_first supply num 0 []) ≡ num =
      omega (arith, length-newest_first supply num 0 []) in
    let k = alloc_loop-IsChain c supply num 0 0 links [] fresh refl in
    simp (sa, sf)
      (
        refl,
        free_loop-IsChain (newest_first supply num 0 []) rounds _ _ (omega (arith, total)) k,
        total,
      )

-- mcache_free frees its buffer alone, whatever list the buffer was in.
pub mcache_free-alone :
    (c : Mcache) (rounds buf : ℕ) (links : ℕ → ℕ)
    → c.slab_free ≡ false
    → buf ≢ 0
    → 1 < rounds
    → mcache_free c rounds buf links ≡ (libc_free buf ∷ [], 0)
unfolding mcache_free mcache_free_ext
mcache_free-alone c rounds buf links sf ne lt = rw sf (
    free_loop-IsChain (buf ∷ []) rounds buf (update links buf 0) lt
      (refl, ne, update_self links buf 0))
