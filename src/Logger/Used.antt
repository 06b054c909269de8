-- ===== src/Logger/Used.antt =====
-- pointer_names_used_ of fuzz/host/logger.h, a set of strings, as a test.
use Prim.Native.String.{String}
use text.Mathlib.Text.{◌==◌}
use text.Mathlib.TextEquality.{eq_iff}
use sock_fuzzer.Common.{Bool, true, if◌then◌else◌, ◌≡◌, refl, Bool-cases, inl, inr}

abbrev pub mark : (String → Bool) → String → String → Bool
mark used name other = if other == name then true else used other

pub mark_self : (used : String → Bool) (name : String) → mark used name name ≡ true
mark_self used name = rw ((eq_iff name name).1 refl) refl

pub mark_kept :
    (used : String → Bool) (name other : String) → used other ≡ true → mark used name other ≡ true
mark_kept used name other h = elim (Bool-cases (other == name)) [
  | inl same ↦ rw same refl
  | inr apart ↦ rw apart h
]
