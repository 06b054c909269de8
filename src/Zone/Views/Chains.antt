-- ===== src/Zone/Views/Chains.antt =====
-- The chains of views of fuzz/xnu/osfmk/fakes/zalloc.c as lists, and how many zones have one.
use sock_fuzzer.Common.{
  ℕ, zero, suc, Bool, true, false, ◌&&◌, ◌||◌, not, Option, none, some, List, [], ◌∷◌,
  if◌then◌else◌, ◌==◌, update, is_some, ◌+◌, ◌<◌, ◌≤◌, ◌≡◌, refl, subst, arith, Bool-cases, inl,
  inr,
}

abbrev pub member : ℕ → List ℕ → Bool
member n [] = false
member n (m ∷ ms) = (n == m) || member n ms

abbrev pub has_some : List ℕ → Bool
has_some [] = false
has_some (n ∷ ns) = true

-- The views that are found by going along zv_next from a link.
abbrev pub Linked : (zv_next : ℕ → Option ℕ) → Option ℕ → List ℕ → Type 0
Linked zv_next link [] = link ≡ none
Linked zv_next link (view ∷ views) = (link ≡ some view) × Linked zv_next (zv_next view) views

-- A new view leaves the chains that it is not in.
pub Linked-update :
    (zv_next : ℕ → Option ℕ) (view : ℕ) (next link : Option ℕ) (views : List ℕ)
    → member view views ≡ false
    → Linked zv_next link views
    → Linked (update zv_next view next) link views
Linked-update zv_next view next link [] apart l = l
Linked-update zv_next view next link (first ∷ views) apart l = (
  l.0,
  subst (λ link'. Linked (update zv_next view next) link' views) (ground (arith, apart))
      (Linked-update zv_next view next (zv_next first) views (ground (arith, apart)) l.1),
)

-- How many of the zones up to a bound have views and are in no heap.
unfoldable pub viewed : (free : ℕ → Bool) → (chains : ℕ → List ℕ) → ℕ → ℕ
viewed free chains zero = 0
viewed free chains (suc n) = (if free n && has_some (chains n) then 1 else 0) + viewed free chains n

viewed_outside :
    (free : ℕ → Bool) (chains : ℕ → List ℕ) (z : ℕ) (views : List ℕ) (n : ℕ)
    → n ≤ z
    → viewed free (update chains z views) n ≡ viewed free chains n
unfolding viewed
viewed_outside free chains z views zero h = refl
viewed_outside free chains z views (suc n) h =
    ground (arith, viewed_outside free chains z views n (omega arith))

pub viewed_added :
    (free : ℕ → Bool) (chains : ℕ → List ℕ) (z view n : ℕ)
    → z < n
    → viewed free (update chains z (view ∷ chains z)) n
      ≡ viewed free chains n + (if free z && not (has_some (chains z)) then 1 else 0)
unfolding viewed
viewed_added free chains z view zero h = absurd (omega arith)
viewed_added free chains z view (suc n) h = elim (Bool-cases (n == z)) [
  | inl last ↦ ground (arith, viewed_outside free chains z (view ∷ chains z) n (ground arith))
  | inr more ↦ ground (arith, viewed_added free chains z view n (ground arith))
]

pub viewed_none : (free : ℕ → Bool) (n : ℕ) → viewed free (λ z. []) n ≡ 0
unfolding viewed
viewed_none free zero = refl
viewed_none free (suc n) = ground (arith, viewed_none free n)

pub Linked-is_some :
    (zv_next : ℕ → Option ℕ) (link : Option ℕ) (views : List ℕ)
    → Linked zv_next link views
    → is_some link ≡ has_some views
Linked-is_some zv_next link [] l = rw l refl
Linked-is_some zv_next link (view ∷ views) l = rw l.0 refl
