-- ===== src/Stubs/Identifiers.antt =====
-- The uuid functions and __MALLOC of fuzz/xnu/bsd/fakes/fake_impls.c.
use sock_fuzzer.Common.{
  ℕ, Bool, true, false, Option, none, some, List, [], ◌∷◌, replicate, Outcome, ok, stop,
  assert_failed, ltb, if◌then◌else◌, ◌==◌, ◌&&◌,
}

abbrev pub uuid_null : List ℕ
uuid_null = replicate 16 0

-- memcmp of two lists of bytes, as far as whether it answers 0.
abbrev pub same_bytes : List ℕ → List ℕ → Bool
same_bytes [] [] = true
same_bytes (x ∷ xs) (y ∷ ys) = (x == y) && same_bytes xs ys
same_bytes _ _ = false

abbrev pub uuid_is_null : List ℕ → Bool
uuid_is_null uu = same_bytes uu uuid_null

-- `first` and `second` are what GetFuzzedBool answers.
unfoldable pub uuid_generate_random : (first second : Bool) → List ℕ
uuid_generate_random first second =
    if first then replicate 16 48 else if second then replicate 16 49 else replicate 16 50

-- The address and the bytes there; `malloc` gives an address and what the memory holds, or null.
unfoldable pub malloc_type :
    (malloc : ℕ → Option (ℕ × List ℕ))
    → (m_last size malloc_kind : ℕ) → (m_zero : Bool) → Outcome (Option (ℕ × List ℕ))
malloc_type malloc m_last size malloc_kind m_zero =
    if ltb malloc_kind m_last
    then ok (
        if size == 0 then none else (elim (malloc size) [
          | none ↦ none
          | some (address, old) ↦ some (address, if m_zero then replicate size 0 else old)
        ]))
    else stop assert_failed
