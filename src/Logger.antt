-- ===== src/Logger.antt =====
-- Logger of fuzz/host/logger.cc and fuzz/host/logger.h: which subsystems are logged, and the names that pointers
-- are printed with. Addresses are numbers. What absl and the random numbers of the standard library answer are
-- arguments; putting names into the text of a message is left out.
pub mod Used
mod Laws
mod Tests
use Prim.Native.String.{String}
use sock_fuzzer.Common.{
  ℕ, zero, suc, Bool, true, false, ◌&&◌, not, Option, none, some, List, [], ◌∷◌, ◌++◌, length,
  if◌then◌else◌, ◌%◌, ◌/◌, ◌+◌, ◌*◌, update, ◌==◌,
}
use sock_fuzzer.Logger.Used.{mark}

-- TICKET_LOCK of enum log_subsystem.
abbrev pub ticket_lock : ℕ
ticket_lock = 1

-- The subsystems by their numbers. `output` is what LoggerDetail got, `drawn` how many random numbers were used.
pub record Logger : Type 0 where
  pub subsystems : ℕ → Bool
  pub enabled : Bool
  pub output : List String
  pub drawn : ℕ
  pub pointer_names : ℕ → Option String
  pub pointer_names_used : String → Bool

abbrev pub first_logger : Logger
first_logger = record {
  subsystems = λ subsystem. false;
  enabled = false;
  output = [];
  drawn = 0;
  pointer_names = λ ptr. none;
  pointer_names_used = λ name. false;
}

unfoldable pub enable_subsystem : (subsystem : ℕ) → Logger → Logger
enable_subsystem subsystem l = record l { subsystems = update l.subsystems subsystem true }

unfoldable pub disable_subsystem : (subsystem : ℕ) → Logger → Logger
disable_subsystem subsystem l = record l { subsystems = update l.subsystems subsystem false }

unfoldable pub enable : Logger → Logger
enable l = record l { enabled = true }

unfoldable pub disable : Logger → Logger
disable l = record l { enabled = false }

-- Log of a string. `debug` is whether NDEBUG is left undefined.
unfoldable pub log_string : (debug : Bool) → (subsystem : ℕ) → String → Logger → Logger
log_string debug subsystem string l =
    if subsystem == ticket_lock
    then l
    else if debug
    then record l { output = l.output ++ string ∷ [] }
    else l

-- Log of a format with its arguments, which give `string`. The subscript enters an unknown subsystem as off.
unfoldable pub log_formatted :
    (debug : Bool) → (subsystem : ℕ) → (string : String) → Logger → Logger
unfolding log_string
log_formatted debug subsystem string l =
    if debug && l.enabled && l.subsystems subsystem then log_string debug subsystem string l else l

abbrev pub word : List String → ℕ → String
word [] i = ""
word (w ∷ words) zero = w
word (w ∷ words) (suc i) = word words i

-- The name that an index stands for: str_format is "%s_%s" of absl, to_lower AsciiStrToLower.
module _ (str_format : String → String → String) (to_lower : String → String)
    (adjectives nouns : List String) (distribution : (position names : ℕ) → ℕ) where
  abbrev pub index_name : (index : ℕ) → String
  index_name index =
      str_format (word adjectives (index % length adjectives))
        (to_lower (word nouns ((index / length adjectives) % length nouns)))

  -- The name that is made of the random number at a position.
  abbrev pub name_at : (position : ℕ) → String
  name_at position = index_name (distribution position (length adjectives * length nouns))

  -- The loop, for a number of rounds: none while it goes on.
  abbrev pub draw_name :
      (rounds : ℕ) → (used : String → Bool) → (position : ℕ) → Option (String × ℕ)
  draw_name zero used position = none
  draw_name (suc rounds) used position =
      let rest = draw_name rounds used (position + 1) in
      if used (name_at position) then rest else some (name_at position, position + 1)

  unfoldable pub generate_name_from_pointer : (rounds ptr : ℕ) → Logger → Option (String × Logger)
  generate_name_from_pointer rounds ptr l = elim (l.pointer_names ptr) [
    | some name ↦ some (name, l)
    | none ↦ elim (draw_name rounds l.pointer_names_used l.drawn) [
      | none ↦ none
      | some (name, drawn) ↦ some (
        name,
        record l {
          drawn = drawn;
          pointer_names = update l.pointer_names ptr (some name);
          pointer_names_used = mark l.pointer_names_used name;
        },
      )
    ]
  ]
