-- ===== src/Logger/Tests.antt =====
-- Pointers named by a Logger with four names, and messages of two subsystems.
use Prim.Native.String.{String, ◌++◌}
use sock_fuzzer.Common.{
  ℕ, true, none, some, List, [], ◌∷◌, ◌≡◌, refl, ◌%◌, ◌-◌, ◌==◌, if◌then◌else◌, Bool-cases, inl,
  inr, subst, arith,
}
use sock_fuzzer.Logger.Used.{mark}
use sock_fuzzer.Logger.{
  Logger, first_logger, ticket_lock, generate_name_from_pointer, enable_subsystem,
  disable_subsystem, enable, disable, log_string, log_formatted,
}
use sock_fuzzer.Logger.Laws.{IsNamed, generate_name_from_pointer-IsNamed}

abbrev str_format : String → String → String
str_format adjective noun = adjective ++ "_" ++ noun

abbrev adjectives : List String
adjectives = "calm" ∷ "bold" ∷ []

abbrev nouns : List String
nouns = "otter" ∷ "raven" ∷ []

-- The first two random numbers are the same.
abbrev distribution : ℕ → ℕ → ℕ
distribution position names = (position - 1) % names

-- Address 64 has the first name.
abbrev one_name : Logger
one_name = record first_logger {
  drawn = 1;
  pointer_names = λ ptr. if ptr == 64 then some "calm_otter" else none;
  pointer_names_used = mark first_logger.pointer_names_used "calm_otter";
}

one_name-IsNamed : IsNamed one_name
one_name-IsNamed = record {
  apart = λ p q name e f. ground arith;
  known = λ p name e. elim (Bool-cases (p == 64)) [
    | inl here ↦
        let same : "calm_otter" ≡ name = ground (arith, here, e) in
        subst (λ n. one_name.pointer_names_used n ≡ true) same refl
    | inr far ↦ absurd (ground (arith, far, e))
  ];
}

generate_name_from_pointer-IsNamed_example :
    (name : String) × (l' : Logger) × (generate_name_from_pointer str_format
        (λ noun. noun)
        adjectives
        nouns
        distribution
        3
        128
        one_name
      ≡ some (name, l'))
    × (l'.pointer_names 128 ≡ some name)
    × ((q : ℕ) (old : String) → one_name.pointer_names q ≡ some old → l'.pointer_names q ≡ some old)
    × IsNamed l'
generate_name_from_pointer-IsNamed_example =
    generate_name_from_pointer-IsNamed str_format (λ noun. noun) adjectives nouns distribution 3 1
      128 one_name one_name-IsNamed (omega arith) refl

ticket_locks_silent :
    (log_formatted true ticket_lock "locked"
      (enable (enable_subsystem ticket_lock first_logger))).output
    ≡ []
unfolding log_formatted log_string enable enable_subsystem
ticket_locks_silent = refl

threads_logged :
    (log_formatted true 2 "blocked" (enable (enable_subsystem 2 first_logger))).output
    ≡ "blocked" ∷ []
unfolding log_formatted log_string enable enable_subsystem
threads_logged = refl

off_again :
    (log_formatted true 2 "blocked" (disable (disable_subsystem 2 first_logger))).output ≡ []
unfolding log_formatted disable disable_subsystem
off_again = refl
