-- ===== src/Logger/Laws.antt =====
-- On the names of pointers of fuzz/host/logger.cc.
use Prim.Native.String.{String}
use sock_fuzzer.Common.{
  ℕ, zero, suc, Bool, true, false, none, some, List, ◌+◌, ◌<◌, update, ◌≡◌, refl, ap, ◌∙◌, arith,
  ◌==◌, subst, Bool-cases, Option-cases, inl, inr,
}
use sock_fuzzer.Logger.Used.{mark, mark_self, mark_kept}
use sock_fuzzer.Logger.{Logger, name_at, draw_name, generate_name_from_pointer}

-- A name belongs to one pointer, and is known to be in use.
pub record IsNamed (l : Logger) : Type 0 where
  pub apart :
      (p q : ℕ) (name : String)
      → l.pointer_names p ≡ some name
      → l.pointer_names q ≡ some name
      → p ≡ q
  pub known :
      (p : ℕ) (name : String) → l.pointer_names p ≡ some name → l.pointer_names_used name ≡ true

module _ (str_format : String → String → String) (to_lower : String → String)
    (adjectives nouns : List String) (distribution : (position names : ℕ) → ℕ) where
  -- The loop ends with a name that is not in use when it draws one.
  draw_name-fresh :
      (rounds k : ℕ) (used : String → Bool) (position : ℕ)
      → k < rounds
      → used (name_at str_format to_lower adjectives nouns distribution (position + k)) ≡ false
      → (name : String) × (drawn : ℕ) × (draw_name str_format to_lower adjectives nouns distribution
            rounds used position
          ≡ some (name, drawn))
        × (used name ≡ false)
  draw_name-fresh zero k used position h fresh = absurd (omega arith)
  draw_name-fresh (suc rounds) zero used position h fresh =
      let here : used (name_at str_format to_lower adjectives nouns distribution position) ≡ false =
        ap (λ i. used (name_at str_format to_lower adjectives nouns distribution i)) (omega arith)
        ∙ fresh in
      (
        name_at str_format to_lower adjectives nouns distribution position,
        position + 1,
        rw here refl,
        here,
      )
  draw_name-fresh (suc rounds) (suc k) used position h fresh =
      let later = draw_name-fresh rounds k used (position + 1) (omega arith) (
        ap (λ i. used (name_at str_format to_lower adjectives nouns distribution i)) (omega arith)
        ∙ fresh) in
      elim (Bool-cases
        (used (name_at str_format to_lower adjectives nouns distribution position))) [
          | inl taken ↦ (later.0, later.1, rw taken later.2, later.3)
          | inr free ↦ (
            name_at str_format to_lower adjectives nouns distribution position,
            position + 1,
            rw free refl,
            free,
          )
        ]

  IsNamed-entered :
      (l : Logger) (ptr drawn : ℕ) (name : String)
      → IsNamed l
      → l.pointer_names ptr ≡ none
      → l.pointer_names_used name ≡ false
      → IsNamed (record l {
        drawn = drawn;
        pointer_names = update l.pointer_names ptr (some name);
        pointer_names_used = mark l.pointer_names_used name;
      })
  IsNamed-entered l ptr drawn name s new fresh = record {
    apart = λ p q other e f. elim (Bool-cases (p == ptr)) [
      | inl here ↦ elim (Bool-cases (q == ptr)) [
        | inl there ↦ ground (arith, here, there)
        | inr away ↦ absurd (ground (arith, s.known q other, fresh))
      ]
      | inr far ↦ elim (Bool-cases (q == ptr)) [
        | inl there ↦ absurd (ground (arith, s.known p other, fresh))
        | inr away ↦ s.apart p q other (ground arith) (ground arith)
      ]
    ];
    known = λ p other e. elim (Bool-cases (p == ptr)) [
      | inl here ↦
          subst (λ n. mark l.pointer_names_used name n ≡ true) (ground (arith, here, e))
            (mark_self l.pointer_names_used name)
      | inr far ↦
          mark_kept l.pointer_names_used name other (s.known p other (ground (arith, far, e)))
    ];
  }

  -- When no two pointers have the same name, and one of the next names that are drawn, within the given number of
  -- rounds, is not in use, a name is returned for the pointer; it is the name that the pointer has then, all
  -- pointers that had a name keep it, and still no two pointers have the same name.
  pub generate_name_from_pointer-IsNamed :
      (rounds k ptr : ℕ) (l : Logger)
      → IsNamed l
      → k < rounds
      → l.pointer_names_used
          (name_at str_format to_lower adjectives nouns distribution (l.drawn + k))
        ≡ false
      → (name : String) × (l' : Logger) × (generate_name_from_pointer str_format to_lower adjectives
            nouns distribution rounds ptr l
          ≡ some (name, l'))
        × (l'.pointer_names ptr ≡ some name)
        × ((q : ℕ) (old : String) → l.pointer_names q ≡ some old → l'.pointer_names q ≡ some old)
        × IsNamed l'
  unfolding generate_name_from_pointer
  generate_name_from_pointer-IsNamed rounds k ptr l s h fresh =
      elim (Option-cases (l.pointer_names ptr)) [
        | inr (name, known) ↦
            (name, l, rw (known, generate_name_from_pointer) refl, known, λ q old e. e, s)
        | inl new ↦
            let (name, drawn, found, free) =
              draw_name-fresh rounds k l.pointer_names_used l.drawn h fresh in
            (
              name,
              _,
              ground (arith, new, found),
              ground arith,
              λ q old e. ground (arith, new, e),
              IsNamed-entered l ptr drawn name s new free,
            )
      ]
