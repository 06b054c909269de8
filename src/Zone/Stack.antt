-- ===== src/Zone/Stack.antt =====
-- zstack_push and zstack_pop of fuzz/xnu/osfmk/fakes/zalloc.c: a stack of element addresses in an
-- array that grows and shrinks by libc's realloc and free.
pub mod Laws
use sock_fuzzer.Common.{
  ℕ, zero, suc, ◌+◌, ◌-◌, Bool, Option, none, some, List, [], ◌∷◌, if◌then◌else◌, get_elem?, set,
  ◌==◌,
}

-- `head` is the array that z_head points to, `none` for a null z_head; `count` is z_count.
pub record ZoneStack : Type 0 where
  pub head : Option (List ℕ)
  pub count : ℕ

-- `zstack_t stack = {0}`.
abbrev pub empty_stack : ZoneStack
empty_stack = record { head = none; count = 0 }

-- What realloc leaves in an array of `n` words: the old words, and `junk` behind them.
abbrev pub resize : ℕ → ℕ → List ℕ → List ℕ
resize zero junk xs = []
resize (suc n) junk [] = junk ∷ resize n junk []
resize (suc n) junk (x ∷ xs) = x ∷ resize n junk xs

abbrev pub words : Option (List ℕ) → List ℕ
words none = []
words (some xs) = xs

-- `grown` is whether realloc succeeds, `junk` what it leaves in new memory.
unfoldable pub zstack_push : (grown : Bool) (junk : ℕ) → ZoneStack → ℕ → ZoneStack
zstack_push grown junk s elem =
    if grown
    then record {
      head = some (set (resize (suc s.count) junk (words s.head)) s.count elem);
      count = suc s.count;
    }
    else s

abbrev pub read_word : List ℕ → ℕ → ℕ
read_word xs i = elim (get_elem? xs i) [ none ↦ 0 | some v ↦ v ]

-- The result is the element popped, 0 for NULL. `zstack_empty` is XNU's.
unfoldable pub zstack_pop : (zstack_empty : ZoneStack → Bool) → ZoneStack → ℕ × ZoneStack
zstack_pop zstack_empty s =
    if zstack_empty s
    then (0, s)
    else (let left = s.count - 1 in
        (
          read_word (words s.head) left,
          record { head = if left == 0 then none else s.head; count = left },
        ))
