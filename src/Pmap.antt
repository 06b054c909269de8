-- ===== src/Pmap.antt =====
-- The pages of fuzz/xnu/osfmk/fakes/pmap.c, which a counter gives out one after the other, and the
-- address space that pmap_virtual_space announces. The counter is an int and the page number is 32
-- bits wide; as long as fewer than 2 ^ 31 pages are asked for, neither wraps.
pub mod Laws
mod Tests
use sock_fuzzer.Common.{
  ℕ, zero, suc, ◌+◌, ◌*◌, Bool, true, false, Outcome, ok, stop, aborted, List, [], ◌∷◌,
  if◌then◌else◌, leb,
}

abbrev pub num_pages : ℕ
num_pages = 65536

-- A call stores a page number, answers, and raises next_page.
pub record Page : Type 0 where
  pub number : ℕ
  pub answer : Bool
  pub next_page : ℕ

unfoldable pub pmap_next_page : (next_page : ℕ) → Page
pmap_next_page next_page = record {
  number = next_page;
  answer = leb next_page num_pages;
  next_page = next_page + 1;
}

-- The same answer, as a kern_return_t: 1 where there is a page, and 0, KERN_SUCCESS, where not.
unfoldable pub pmap_next_page_large : (next_page : ℕ) → Page × ℕ
pmap_next_page_large next_page = (
  record { number = next_page; answer = leb next_page num_pages; next_page = next_page + 1 },
  if leb next_page num_pages then 1 else 0,
)

unfoldable pub pmap_next_page_hi : (next_page : ℕ) → Page
pmap_next_page_hi next_page = record {
  number = next_page;
  answer = true;
  next_page = next_page + 1;
}

unfoldable pub pmap_free_pages : ℕ
pmap_free_pages = num_pages

-- virtual_start and virtual_end; `allocated` is whether posix_memalign succeeds, `start` its memory.
unfoldable pub pmap_virtual_space : (allocated : Bool) → (start : ℕ) → Outcome (ℕ × ℕ)
pmap_virtual_space allocated start =
    if allocated then ok (start, start + 4096 * num_pages) else stop aborted
