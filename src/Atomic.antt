-- ===== src/Atomic.antt =====
-- The atomic operations of fuzz/xnu/osfmk/fakes/atomic.c: plain accesses with a yield before or after,
-- where the host may run other threads. `others` is what these make of the memory word meanwhile.
-- Words are numbers below 2 ^ 32 or 2 ^ 64; no operation computes with them.
pub mod Laws
mod Tests
use sock_fuzzer.Common.{ℕ, Bool, true, false, if◌then◌else◌, ◌==◌}

-- The result, the memory word, and what is stored through `expected`.
pub record Exchanged : Type 0 where
  pub result : ℕ
  pub word : ℕ
  pub expected : ℕ

-- The value is read before the yield. The result is the value and the word afterwards.
unfoldable pub atomic_load_32 : (others : ℕ → ℕ) → (word : ℕ) → ℕ × ℕ
atomic_load_32 others word = (word, others word)

unfoldable pub atomic_load_64 : (others : ℕ → ℕ) → (word : ℕ) → ℕ × ℕ
atomic_load_64 others word = (word, others word)

-- The yield comes first; between the comparison and the store no other thread runs.
unfoldable pub atomic_compare_exchange_32 :
    (others : ℕ → ℕ) → (word expected desired : ℕ) → Exchanged
atomic_compare_exchange_32 others word expected desired =
    let current = others word in
    if current == expected
    then record { result = 1; word = desired; expected = expected }
    else record { result = 0; word = current; expected = current }

unfoldable pub atomic_compare_exchange_64 :
    (others : ℕ → ℕ) → (word expected desired : ℕ) → Exchanged
atomic_compare_exchange_64 others word expected desired =
    let current = others word in
    if current == expected
    then record { result = 1; word = desired; expected = expected }
    else record { result = 0; word = current; expected = current }

-- The word after the store and the yield.
unfoldable pub atomic_store_32 : (others : ℕ → ℕ) → (value : ℕ) → ℕ
atomic_store_32 others value = others value

unfoldable pub atomic_store_64 : (others : ℕ → ℕ) → (value : ℕ) → ℕ
atomic_store_64 others value = others value
