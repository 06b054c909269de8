-- ===== src/Common/Automata.antt =====
-- Partial automata: a step that may refuse, and what it gives over a list.
use mathlib.Core.Path.{◌≡◌}
use mathlib.Core.List.{List, [], ◌∷◌, ◌++◌}
use mathlib.Core.Option.{Option, none, some}

module _ {ℓ κ} {A : Type ℓ} {C : Type κ} (step : A → C → Option A) where
  unfoldable pub steps : A → List C → Option A
  steps a [] = some a
  steps a (c ∷ cs) = elim (step a c) [ none ↦ none | some a' ↦ steps a' cs ]

  -- A list that is accepted may be followed by another one.
  pub steps-append :
      (a b : A) (cs rest : List C) → steps a cs ≡ some b → steps a (cs ++ rest) ≡ steps b rest
  unfolding steps
  steps-append a b [] rest e = λ i. elim (e i) [ none ↦ none | some a' ↦ steps a' rest ]
  steps-append a b (c ∷ cs) rest e = go (step a c) (λ a'. steps-append a' b cs rest) e
    where
      go :
          (o : Option A)
          → ((a' : A) → steps a' cs ≡ some b → steps a' (cs ++ rest) ≡ steps b rest)
          → (elim o [ none ↦ none | some a' ↦ steps a' cs ]) ≡ some b
          → (elim o [ none ↦ none | some a' ↦ steps a' (cs ++ rest) ]) ≡ steps b rest
      go none ih e = cc
      go (some a') ih e = ih a' e
