-- ===== src/Copyio/Laws.antt =====
-- On copyin, copyinstr and copyout of fuzz/xnu/osfmk/fakes/copyio.c.
use sock_fuzzer.Common.{
  ℕ, ◌+◌, ◌-◌, ◌<◌, ◌≡◌, ◌≢◌, refl, ap, ◌∙◌, true, false, some, List, [], ◌∷◌, length, get_elem?,
  set, arith, update, length-set, get_elem?-set_self,
}
use sock_fuzzer.Copyio.{Fuzzer, read_bytes, write_bytes, copyin, copyinstr, copyout}

-- Writing from an address on leaves what is below it.
write_bytes-below :
    (bytes : List ℕ) (memory : ℕ → ℕ) (addr a : ℕ)
    → a < addr
    → write_bytes memory addr bytes a ≡ memory a
write_bytes-below [] memory addr a h = refl
write_bytes-below (x ∷ xs) memory addr a h =
    write_bytes-below xs (update memory addr x) (addr + 1) a (omega arith) ∙ ground arith

read_bytes-write_bytes :
    (bytes : List ℕ) (memory : ℕ → ℕ) (addr : ℕ)
    → read_bytes (write_bytes memory addr bytes) addr (length bytes) ≡ bytes
read_bytes-write_bytes [] memory addr = refl
read_bytes-write_bytes (x ∷ xs) memory addr =
    let kept : write_bytes (update memory addr x) (addr + 1) xs addr ≡ x =
      write_bytes-below xs (update memory addr x) (addr + 1) addr (omega arith) ∙ ground arith in
    rw kept (ap (◌∷◌ x) (read_bytes-write_bytes xs (update memory addr x) (addr + 1)))

-- With copyio not blocked, what a successful copyout writes at an address other than 0 and 1,
-- copyin reads back, and the bytes below that address stay.
pub copyin-copyout :
    (f f' : Fuzzer) (memory memory' : ℕ → ℕ) (bytes : List ℕ) (addr a : ℕ)
    → f.blocked ≡ false
    → f'.blocked ≡ false
    → addr ≢ 0
    → addr ≢ 1
    → a < addr
    → copyout f memory bytes addr ≡ some memory'
    → (copyin f' memory' addr (length bytes) ≡ some bytes) × (memory' a ≡ memory a)
unfolding copyin copyout
copyin-copyout f f' memory memory' bytes addr a free free' n0 n1 below e =
    let written : memory' ≡ write_bytes memory addr bytes = ground arith in
    let back : read_bytes memory' addr (length bytes) ≡ bytes =
      rw written (read_bytes-write_bytes bytes memory addr) in
    (ground (arith, back), ap (λ m. m a) written ∙ write_bytes-below bytes memory addr a below)

-- While copyio is blocked, user memory has no influence on copyin, and copyout does not change it.
pub copyin-blocked :
    (f : Fuzzer) (memory memory' : ℕ → ℕ) (bytes : List ℕ) (addr len : ℕ)
    → f.blocked ≡ true
    → copyout f memory bytes addr ≡ some memory'
    → (copyin f memory addr len ≡ copyin f (λ a. 0) addr len) × (memory' ≡ memory)
unfolding copyin copyout
copyin-blocked f memory memory' bytes addr len b e = (ground arith, ground arith)

-- Where GetFuzzedBytes fills what it is given and the buffer is not empty, a string that copyinstr
-- gives is as long as the buffer and ends in NUL.
pub copyinstr-terminated :
    (f : Fuzzer) (user_addr max : ℕ) (bytes : List ℕ)
    → ((n : ℕ) → length (f.fuzzed n) ≡ n)
    → 0 < max
    → copyinstr f user_addr max ≡ some bytes
    → (length bytes ≡ max) × (get_elem? bytes (max - 1) ≡ some 0)
unfolding copyinstr
copyinstr-terminated f user_addr max bytes full pos e =
    let made : bytes ≡ set (f.fuzzed max) (max - 1) 0 = ground arith in
    rw made (
      length-set (f.fuzzed max) (max - 1) 0 ∙ full max,
      get_elem?-set_self (f.fuzzed max) (max - 1) 0 (omega (arith, full max)),
    )
