-- ===== src/Copyio/Tests.antt =====
-- Three bytes written to address 100 and read back.
use sock_fuzzer.Common.{ℕ, ◌≡◌, refl, true, false, some, [], ◌∷◌, replicate, arith}
use sock_fuzzer.Copyio.{
  Fuzzer, write_bytes, copyin, copyinstr, copyout, copyin_atomic32, copyin_atomic64,
}
use sock_fuzzer.Copyio.Laws.{copyin-copyout}

abbrev lucky : Fuzzer
lucky = record { remaining = 8; chance = false; fuzzed = λ n. replicate n 65; blocked = false }

abbrev stored : ℕ → ℕ
stored = write_bytes (λ a. 0) 100 (1 ∷ 2 ∷ 3 ∷ [])

stores : copyout lucky (λ a. 0) (1 ∷ 2 ∷ 3 ∷ []) 100 ≡ some stored
unfolding copyout
stores = refl

copyin-copyout_example : (copyin lucky stored 100 3 ≡ some (1 ∷ 2 ∷ 3 ∷ [])) × (stored 50 ≡ 0)
copyin-copyout_example =
    copyin-copyout lucky lucky (λ a. 0) stored (1 ∷ 2 ∷ 3 ∷ []) 100 50 refl refl (λ e. omega arith)
      (λ e. omega arith) (omega arith) stores

abbrev closed : Fuzzer
closed = record lucky { blocked = true }

stays : copyout closed stored (9 ∷ []) 100 ≡ some stored
unfolding copyout
stays = refl

letters : copyinstr lucky 100 3 ≡ some (65 ∷ 65 ∷ 0 ∷ [])
unfolding copyinstr
letters = refl

words_read :
    (copyin_atomic32 lucky (λ a. a) 8 ≡ some (8 ∷ 9 ∷ 10 ∷ 11 ∷ []))
    × (copyin_atomic64 closed (λ a. a) 8 ≡ some (replicate 8 65))
unfolding copyin_atomic32 copyin_atomic64 copyin
words_read = (refl, refl)
