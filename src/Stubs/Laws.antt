-- ===== src/Stubs/Laws.antt =====
-- On fls, crypto_random_uniform, GetFuzzedBytes and uuid_generate_random.
use sock_fuzzer.Common.{
  ℕ, zero, suc, Bool, true, false, Option, none, some, List, [], ◌∷◌, ◌++◌, length, length-append,
  length-replicate, replicate, leb, ltb, lt→ltb, le→ltb-false, if◌then◌else◌, ◌==◌, ◌≡◌, refl, ap,
  ◌∙◌, ◌⊎◌, inl, inr, Bool-cases, suc-sub-one, ◌≤◌, ◌<◌, ◌+◌, ◌-◌, ◌*◌, ◌%◌, ◌^◌, arith,
}
use sock_fuzzer.Message.{overwrite}
use sock_fuzzer.Necp.{NecpClientId, client_0, client_1, client_2, get_necp_client}
use sock_fuzzer.Stubs.Bits.{clz, last_set}
use sock_fuzzer.Stubs.Random.{Provider, get_fuzzed_bytes, crypto_random_uniform}
use sock_fuzzer.Stubs.Identifiers.{uuid_generate_random, uuid_is_null}

suc-sub-suc : (a b : ℕ) → suc a - suc b ≡ a - b
suc-sub-suc a b = omega arith

sub_zero : (n : ℕ) → n - 0 ≡ n
sub_zero n = omega arith

-- The highest bit of a word is the one below its bit length.
abbrev pub IsBitLength : (word bits : ℕ) → Type 0
IsBitLength word bits = (0 < bits) × (word < 2 ^ bits) × (2 ^ (bits - 1) ≤ word)

clz-IsBitLength : (w word : ℕ) → 0 < word → word < 2 ^ w → IsBitLength word (w - clz w word)
unfolding clz
clz-IsBitLength zero word positive fits = absurd (omega arith)
clz-IsBitLength (suc w) word positive fits = elim (Bool-cases (leb (2 ^ w) word)) [
  | inl high ↦
      let top : 2 ^ w ≤ word = ground arith in
      rw (high, sub_zero (suc w), suc-sub-one w) (omega arith, fits, top)
  | inr low ↦
      let below : word < 2 ^ w = ground arith in
      rw (low, suc-sub-suc w (clz w word)) (clz-IsBitLength w word positive below)
]

-- fls and flsll, for a mask of their width: 0 gives 0, and any other mask has its highest bit just below
-- the answer, which is at most the width.
pub last_set-IsBitLength :
    (bytes mask : ℕ)
    → mask < 2 ^ (bytes * 8)
    → ((mask ≡ 0) × (last_set bytes mask ≡ 0))
      ⊎ (IsBitLength mask (last_set bytes mask) × (last_set bytes mask ≤ bytes * 8))
unfolding last_set
last_set-IsBitLength bytes mask fits = ground (arith, clz-IsBitLength (bytes * 8) mask)

pow_mono : (a b d : ℕ) → b ≡ d + a → 2 ^ a ≤ 2 ^ b
pow_mono a b zero e = let same : b ≡ a = omega arith in rw same (omega arith)
pow_mono a b (suc d) e =
    let same : b ≡ suc (d + a) = omega arith in
    let ih = pow_mono a (d + a) d refl in
    let double : 2 ^ suc (d + a) ≡ 2 * 2 ^ (d + a) = omega arith in
    rw (same, double) (omega (arith, ih))

-- A bound of 32 bits on a word, by its bit length.
bits-leb : (word bits : ℕ) → IsBitLength word bits → leb bits 32 ≡ ltb word (2 ^ 32)
bits-leb word bits h = elim (Bool-cases (leb bits 32)) [
  | inl small ↦
      let room : 32 ≡ (32 - bits) + bits = ground arith in
      let top = pow_mono bits 32 (32 - bits) room in
      rw (small, lt→ltb word (2 ^ 32) (omega (arith, h, top))) refl
  | inr large ↦
      let room : bits - 1 ≡ (bits - 1 - 32) + 32 = ground arith in
      let top = pow_mono 32 (bits - 1) (bits - 1 - 32) room in
      rw (large, le→ltb-false word (2 ^ 32) (omega (arith, h, top))) refl
]

-- A random number below a bound of 64 bits other than 1, where the code asks the compiler for the leading
-- zeros of 0: it is 0 for the bound 0, a number from 0 to just below the bound as the test case draws it for
-- other bounds up to 2 ^ 32, and the remainder of 64 drawn bits above that. So it is below the
-- bound, also if the bound is 1, but not if it is 0.
pub crypto_random_uniform-range :
    (undefined bound : ℕ) (p : Provider)
    → bound < 2 ^ 64
    → ((bound ≡ 1)
        ⊎ (crypto_random_uniform undefined p bound ≡ (
            if bound == 0
            then 0
            else if leb bound (2 ^ 32)
            then p.in_range 0 (bound - 1)
            else p.in_range 0 (2 ^ 64 - 1) % bound)))
      × ((bound ≡ 0) ⊎ (crypto_random_uniform undefined p bound < bound))
unfolding crypto_random_uniform
crypto_random_uniform-range undefined bound p fits =
    let word : ℕ = bound - 1 in
    let whole = p.in_range_lem 0 (word % 2 ^ 32) (omega arith) in
    elim (Bool-cases (ltb 1 bound)) [
      | inl many ↦
          let short =
            bits-leb word (64 - clz 64 word)
              (clz-IsBitLength 64 word (ground arith) (omega arith)) in
          ground (arith, short, whole)
      | inr few ↦ ground (arith, whole)
    ]

overwrite-replicate :
    (dat : List ℕ) (n : ℕ)
    → length dat ≤ n
    → overwrite dat (replicate n 0) ≡ dat ++ replicate (n - length dat) 0
overwrite-replicate [] n fits = rw (sub_zero n) refl
overwrite-replicate (x ∷ dat) zero fits = absurd (omega arith)
overwrite-replicate (x ∷ dat) (suc n) fits =
    ap (λ rest. x ∷ rest) (overwrite-replicate dat n (omega arith))
    ∙ rw (suc-sub-suc n (length dat)) refl

-- Asking for some bytes fills just that many: with what the test case still has, and then with zeros; with
-- zeros only where there is no test case.
pub get_fuzzed_bytes-fill :
    (provider : Option Provider) (count : ℕ)
    → (length (get_fuzzed_bytes provider count) ≡ count)
      × (get_fuzzed_bytes provider count ≡ (elim provider as (λ _. List ℕ) [
        | none ↦ replicate count 0
        | some p ↦ p.consume_bytes count ++ replicate (count - length (p.consume_bytes count)) 0
      ]))
unfolding get_fuzzed_bytes
get_fuzzed_bytes-fill none count = (length-replicate count 0, refl)
get_fuzzed_bytes-fill (some p) count =
    let dat = p.consume_bytes count in
    let filled = overwrite-replicate dat count (p.consume_bytes_lem count) in
    (
      ap length filled
          ∙ (length-append dat (replicate (count - length dat) 0)
              ∙ rw (length-replicate {A = ℕ} (count - length dat) 0)
                  (omega (arith, p.consume_bytes_lem count))),
      filled,
    )

-- A random uuid of the kernel is one of the three client identifiers that requests can name, each of which can come
-- up; none of them is the null one.
pub uuid_generate_random-client :
    (first second : Bool) (client : NecpClientId)
    → ((c : NecpClientId) × (uuid_generate_random first second ≡ get_necp_client c))
      × ((a : Bool) × (b : Bool) × (uuid_generate_random a b ≡ get_necp_client client))
      × (uuid_is_null (uuid_generate_random first second) ≡ false)
unfolding uuid_generate_random
uuid_generate_random-client first second client =
    (chosen first second, reached client, ground arith)
  where
    chosen : (a b : Bool) → (c : NecpClientId) × (uuid_generate_random a b ≡ get_necp_client c)
    chosen true b = (client_0, refl)
    chosen false true = (client_1, refl)
    chosen false false = (client_2, refl)

    reached :
        (c : NecpClientId)
        → (a : Bool) × (b : Bool) × (uuid_generate_random a b ≡ get_necp_client c)
    reached client_0 = (true, true, refl)
    reached client_1 = (false, true, refl)
    reached client_2 = (false, false, refl)
