-- ===== src/Common/Outcomes.antt =====
-- How a call of kernel code ends: with a value, or with a stop of the whole kernel.
use mathlib.Core.Path.{◌≡◌, refl}

-- `panic(...)`, the hypercall `Abort`, and a failed `assert` do not return.
pub data Stop : Type 0 where
  panicked aborted assert_failed : Stop

pub data Outcome {ℓ} (A : Type ℓ) : Type ℓ where
  stop : Stop → Outcome A
  ok : A → Outcome A

-- Sequencing, for do blocks: a stop is final.
infixl 5 ◌>>=◌
abbrev pub ◌>>=◌ {κ ℓ} :
    {B : Type κ} {A : Type ℓ} → (first : Outcome A) → (next : A → Outcome B) → Outcome B
stop reason >>= next = stop reason
ok value >>= next = next value

-- If a sequence gives a value, so did its first part.
pub >>=-eq-ok {κ ℓ} :
    {B : Type κ} {A : Type ℓ} (first : Outcome A) (next : A → Outcome B) {result : B}
    → (first >>= next) ≡ ok result
    → (value : A) × (first ≡ ok value) × (next value ≡ ok result)
>>=-eq-ok (stop reason) next gives = cc
>>=-eq-ok (ok value) next gives = (value, refl, gives)
