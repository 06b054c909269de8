-- ===== src/Atomic/Laws.antt =====
-- On atomic_compare_exchange and the fetching operations of fuzz/xnu/osfmk/fakes/atomic.c.
use sock_fuzzer.Common.{ℕ, ◌≡◌, ◌≢◌, ◌⊎◌, inl, inr, refl, ◌==◌, Bool-cases, arith}
use sock_fuzzer.Atomic.{atomic_compare_exchange_32, atomic_compare_exchange_64}

-- Both widths exchange a word only if it is as expected after the other threads have run. If not,
-- the word stays as they left it, and a second try with the value that was stored through `expected`
-- succeeds unless the word changes once more.
pub atomic_compare_exchange-retry :
    (others : ℕ → ℕ) (word expected desired : ℕ)
    → let e = atomic_compare_exchange_64 others word expected desired in
      (e ≡ atomic_compare_exchange_32 others word expected desired)
      × (((others word ≡ expected) × (e.result ≡ 1) × (e.word ≡ desired))
          ⊎ ((others word ≢ expected)
              × (e.result ≡ 0)
              × (e.word ≡ others word)
              × (atomic_compare_exchange_64 (λ w. w) e.word e.expected desired
                  ≡ record { result = 1; word = desired; expected = others word })))
unfolding atomic_compare_exchange_32 atomic_compare_exchange_64
atomic_compare_exchange-retry others word expected desired = (
  refl,
  elim (Bool-cases (others word == expected)) [
    | inl same ↦ inl (ground arith, ground arith, ground arith)
    | inr changed ↦ inr (ground arith, ground arith, ground arith, ground arith)
  ],
)
