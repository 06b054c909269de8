-- ===== src/Zone/Stack/Laws.antt =====
-- On zstack_push and zstack_pop of fuzz/xnu/osfmk/fakes/zalloc.c, the stack read as a list.
use sock_fuzzer.Common.{
  ℕ, zero, suc, ◌≤◌, ◌<◌, ◌≡◌, ◌⊎◌, inl, inr, refl, ap, Bool, true, Option, none, List, [], ◌∷◌,
  ◌++◌, arith, ◌==◌, length, set, take, length-set, suc==zero, suc-sub-one, ◌∙◌, sym, length-append,
}
use sock_fuzzer.Zone.Stack.{
  ZoneStack, empty_stack, resize, words, read_word, zstack_push, zstack_pop,
}

-- The live part of the array: z_count words.
abbrev pub to_list : ZoneStack → List ℕ
to_list s = take s.count (words s.head)

-- The array holds at least z_count words, and none is kept when the stack is empty.
pub record IsZoneStack (s : ZoneStack) : Type 0 where
  pub fits : s.count ≤ length (words s.head)
  pub freed : s.count ≡ 0 → s.head ≡ none

pub empty_stack-IsZoneStack : IsZoneStack empty_stack
empty_stack-IsZoneStack = record { fits = omega arith; freed = λ e. refl }

take-set-resize :
    (n junk e : ℕ) (xs : List ℕ)
    → n ≤ length xs
    → take (suc n) (set (resize (suc n) junk xs) n e) ≡ take n xs ++ e ∷ []
take-set-resize zero junk e [] h = refl
take-set-resize zero junk e (x ∷ xs) h = refl
take-set-resize (suc n) junk e [] h = elim h [ ]
take-set-resize (suc n) junk e (x ∷ xs) h = ap (◌∷◌ x) (take-set-resize n junk e xs (omega arith))

length-resize : (n junk : ℕ) (xs : List ℕ) → length (resize n junk xs) ≡ n
length-resize zero junk xs = refl
length-resize (suc n) junk [] = ap suc (length-resize n junk [])
length-resize (suc n) junk (x ∷ xs) = ap suc (length-resize n junk xs)

take-suc :
    (n : ℕ) (xs : List ℕ) → n < length xs → take (suc n) xs ≡ take n xs ++ read_word xs n ∷ []
take-suc zero [] h = elim h [ ]
take-suc zero (x ∷ xs) h = refl
take-suc (suc n) [] h = elim h [ ]
take-suc (suc n) (x ∷ xs) h = ap (◌∷◌ x) (take-suc n xs (omega arith))

length-take-le : (n : ℕ) (xs : List ℕ) → n ≤ length xs → length (take n xs) ≡ n
length-take-le zero xs h = refl
length-take-le (suc n) [] h = elim h [ ]
length-take-le (suc n) (x ∷ xs) h = ap suc (length-take-le n xs (omega arith))

pub length-to_list : (s : ZoneStack) → IsZoneStack s → length (to_list s) ≡ s.count
length-to_list s v = length-take-le s.count (words s.head) v.fits

snoc-ne-nil : (xs : List ℕ) (a : ℕ) → xs ++ a ∷ [] ≡ [] → ⊥
snoc-ne-nil [] a e = cc
snoc-ne-nil (x ∷ xs) a e = cc

snoc_injective : (xs ys : List ℕ) (a b : ℕ) → xs ++ a ∷ [] ≡ ys ++ b ∷ [] → (a ≡ b) × (xs ≡ ys)
snoc_injective [] [] a b e = ground arith
snoc_injective [] (y ∷ []) a b e = cc
snoc_injective [] (y ∷ z ∷ ys) a b e = cc
snoc_injective (x ∷ []) [] a b e = cc
snoc_injective (x ∷ z ∷ xs) [] a b e = cc
snoc_injective (x ∷ xs) (y ∷ ys) a b e = ground (arith, snoc_injective xs ys a b)

-- A push whose realloc succeeds puts the element on top and keeps the array large enough.
pub zstack_push-grown :
    (junk : ℕ) (s : ZoneStack) (e : ℕ)
    → IsZoneStack s
    → IsZoneStack (zstack_push true junk s e)
      × (to_list (zstack_push true junk s e) ≡ to_list s ++ e ∷ [])
unfolding zstack_push
zstack_push-grown junk s e v = (
  record {
    fits = omega (
      arith,
      length-set (resize (suc s.count) junk (words s.head)) s.count e,
      length-resize (suc s.count) junk (words s.head),
    );
    freed = λ z. absurd (omega arith);
  },
  take-set-resize s.count junk e (words s.head) v.fits,
)

module _ (zstack_empty : ZoneStack → Bool)
    (empty_lem : (s : ZoneStack) → zstack_empty s ≡ (s.count == 0)) where
  pop_at :
      (n : ℕ) (h : Option (List ℕ))
      → suc n ≤ length (words h)
      → let r = zstack_pop zstack_empty (record { head = h; count = suc n }) in
        (take (suc n) (words h) ≡ to_list r.1 ++ r.0 ∷ []) × IsZoneStack r.1
  unfolding zstack_pop
  pop_at zero h v =
      rw (empty_lem _) (take-suc 0 (words h) v, record { fits = omega arith; freed = λ e. refl })
  pop_at (suc n) h v =
      rw (empty_lem _, suc-sub-one (suc n), suc==zero (suc n), suc==zero n)
        (
          take-suc (suc n) (words h) v,
          record { fits = omega arith; freed = λ z. absurd (omega arith) },
        )

  -- A pop of an empty stack gives NULL and changes nothing; any other takes the newest element off.
  pub zstack_pop-cases :
      (s : ZoneStack)
      → IsZoneStack s
      → let r = zstack_pop zstack_empty s in
        ((to_list s ≡ []) × (r ≡ (0, s)))
        ⊎ ((to_list s ≡ to_list r.1 ++ r.0 ∷ []) × IsZoneStack r.1)
  unfolding zstack_pop
  zstack_pop-cases s v = go s.count s.head v
    where
      go :
          (n : ℕ) (h : Option (List ℕ))
          → IsZoneStack (record { head = h; count = n })
          → let r = zstack_pop zstack_empty (record { head = h; count = n }) in
            ((take n (words h) ≡ []) × (r ≡ (0, record { head = h; count = n })))
            ⊎ ((take n (words h) ≡ to_list r.1 ++ r.0 ∷ []) × IsZoneStack r.1)
      go zero h v = inl (refl, rw (empty_lem _))
      go (suc n) h v = inr (pop_at n h v.fits)

  -- Popping takes off the element that the list view ends in, and leaves the rest.
  pub zstack_pop-snoc :
      (s : ZoneStack) (xs : List ℕ) (e : ℕ)
      → IsZoneStack s
      → to_list s ≡ xs ++ e ∷ []
      → let r = zstack_pop zstack_empty s in
        (r.0 ≡ e) × (to_list r.1 ≡ xs) × IsZoneStack r.1 × (suc (r.1).count ≡ s.count)
  zstack_pop-snoc s xs e v h = elim (zstack_pop-cases s v) [
    | inl (nil, _) ↦ absurd (snoc-ne-nil xs e (sym h ∙ nil))
    | inr (split, w) ↦
        (let eq = snoc_injective _ xs _ e (sym split ∙ h) in
          (
            eq.0,
            eq.1,
            w,
            omega (
              arith,
              ap length split,
              length-to_list s v,
              length-to_list _ w,
              length-append (to_list (zstack_pop zstack_empty s).1)
                  ((zstack_pop zstack_empty s).0 ∷ []),
            ),
          ))
  ]

  -- A pop of a stack that holds something takes its newest element off.
  pub zstack_pop-suc :
      (s : ZoneStack) (n : ℕ)
      → IsZoneStack s
      → s.count ≡ suc n
      → let r = zstack_pop zstack_empty s in
        (to_list s ≡ to_list r.1 ++ r.0 ∷ []) × IsZoneStack r.1 × ((r.1).count ≡ n)
  zstack_pop-suc s n v e = elim (zstack_pop-cases s v) [
    | inl (nil, _) ↦ absurd (omega (arith, ap length nil, length-to_list s v))
    | inr (split, w) ↦
        (let p =
            zstack_pop-snoc s (to_list (zstack_pop zstack_empty s).1) (zstack_pop zstack_empty s).0
              v split in
          (split, w, omega (arith, p.3)))
  ]

-- An empty stack has no elements.
pub to_list-zero : (s : ZoneStack) → s.count ≡ 0 → to_list s ≡ []
to_list-zero s e = rw e

module _ (zstack_empty : ZoneStack → Bool)
    (empty_lem : (s : ZoneStack) → zstack_empty s ≡ (s.count == 0)) where
  -- A pop of an empty stack gives NULL.
  pub zstack_pop-zero : (s : ZoneStack) → s.count ≡ 0 → zstack_pop zstack_empty s ≡ (0, s)
  unfolding zstack_pop
  zstack_pop-zero s e = let none_left : zstack_empty s ≡ true = empty_lem s ∙ rw e in rw none_left
