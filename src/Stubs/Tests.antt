-- ===== src/Stubs/Tests.antt =====
-- A test case that has two bytes left and draws the least number of a range.
use sock_fuzzer.Common.{
  ℕ, zero, suc, true, false, none, some, List, [], ◌∷◌, length, take, replicate, ok, ◌≡◌, refl, ◌⊎◌,
  ◌≤◌, ◌<◌, ◌-◌, ◌%◌, ◌^◌, arith,
}
use sock_fuzzer.Stubs.Bits.{clz, last_set, fls}
use sock_fuzzer.Stubs.Random.{Provider, crypto_random_uniform}
use sock_fuzzer.Stubs.Identifiers.{malloc_type}
use sock_fuzzer.Stubs.BootArguments.{bool_arg, pe_parse_boot_argn}
use sock_fuzzer.Stubs.Laws.{crypto_random_uniform-range}

length-take_le : (n : ℕ) (xs : List ℕ) → length (take n xs) ≤ n
length-take_le zero xs = omega arith
length-take_le (suc n) [] = omega arith
length-take_le (suc n) (x ∷ xs) = omega (arith, length-take_le n xs)

abbrev two_left : Provider
two_left = record {
  consume_bytes = λ count. take count (7 ∷ 8 ∷ []);
  consume_bytes_lem = λ count. length-take_le count (7 ∷ 8 ∷ []);
  in_range = λ low high. low;
  in_range_lem = λ low high h. (omega arith, h);
  consume_bool = true;
}

crypto_random_uniform-range_example :
    ((◌≡◌ {A = ℕ} 5000000000 1)
      ⊎ (crypto_random_uniform 3 two_left 5000000000
          ≡ two_left.in_range 0 (2 ^ 64 - 1) % 5000000000))
    × ((◌≡◌ {A = ℕ} 5000000000 0) ⊎ (crypto_random_uniform 3 two_left 5000000000 < 5000000000))
crypto_random_uniform-range_example =
    crypto_random_uniform-range 3 5000000000 two_left (omega arith)

highest : fls 40 ≡ 6
unfolding last_set clz
highest = refl

debug_off : pe_parse_boot_argn "ifa_debug" ≡ some (bool_arg false)
unfolding pe_parse_boot_argn
debug_off = refl

unknown_argument : pe_parse_boot_argn "serial" ≡ none
unfolding pe_parse_boot_argn
unknown_argument = refl

-- Memory that is asked for as zeros is filled with zeros.
cleared :
    malloc_type (λ size. some (4096, replicate size 255)) 10 3 2 true
    ≡ ok (some (4096, 0 ∷ 0 ∷ 0 ∷ []))
unfolding malloc_type
cleared = refl
