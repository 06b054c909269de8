-- ===== src/Zone/Arena.antt =====
-- kmem_mb_alloc of fuzz/xnu/osfmk/fakes/zalloc.c: memory for mbuf clusters, given out from one piece that is never
-- given back. Addresses are numbers; a `size` is not negative.
pub mod Laws
mod Tests
use sock_fuzzer.Common.{
  ℕ, Bool, true, false, Option, none, some, if◌then◌else◌, ◌==◌, ◌+◌, ◌*◌, ◌/◌,
}

pub record Arena : Type 0 where
  pub mb_is_ready : Bool
  pub mbutl : ℕ
  pub embutl : ℕ
  pub current_page : ℕ

abbrev pub arena_length : ℕ
arena_length = 4096 * 65535

-- posix_memalign answers with memory, or with an error.
pub data Memory : Type 0 where
  memory : (address : ℕ) → Memory
  failed : (error : ℕ) → Memory

abbrev pub first_arena : Arena
first_arena = record { mb_is_ready = false; mbutl = 0; embutl = 0; current_page = 0 }

abbrev pub take_pages : (size : ℕ) → Arena → ℕ × Arena
take_pages size a =
    (a.mbutl + a.current_page * 4096, record a { current_page = a.current_page + size / 4096 })

-- The address that is returned, the error that is stored, and the state.
unfoldable pub kmem_mb_alloc : (size : ℕ) → (aligned : Memory) → Arena → ℕ × ℕ × Arena
kmem_mb_alloc size aligned a =
    if a.mb_is_ready
    then (let (address, a') = take_pages size a in (address, 0, a'))
    else elim aligned [
      | failed error ↦ (0, error, a)
      | memory address ↦
          let (given, a') =
            take_pages size
              (record a { mb_is_ready = true; mbutl = address; embutl = address + arena_length }) in
          (given, 0, a')
    ]
