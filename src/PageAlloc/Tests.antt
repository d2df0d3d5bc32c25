-- ===== src/PageAlloc/Tests.antt =====
-- The page allocator on the pool of a kernel of 40 pages, and on a pool of two blocks.
use os_risc_v.Prelude.{
  ℕ, ◌-◌, ◌<◌, ◌≡◌, refl, true, false, some, [], ◌∷◌, arith, ◌==◌, if◌then◌else◌,
}
use os_risc_v.PageAlloc.{
  reserve, free, Pool, page_total, is_used, kernel_pages, initial, page_init, take_block,
  alloc_pages, free_pages,
}
use os_risc_v.PageAlloc.Blocks.{in_range}
use os_risc_v.PageAlloc.Validity.{IsValid, initial-IsValid, page_init-IsValid}
use os_risc_v.PageAlloc.Take.{alloc_pages-Taken}
use os_risc_v.PageAlloc.Cut.{Taken}
use os_risc_v.PageAlloc.Give.{Given, free_pages-Given}

boot_pages : kernel_pages 0x20000 0x8000 < page_total
unfolding kernel_pages
boot_pages = omega arith

page_init-IsValid_example :
    (s : Pool) × (page_init 0x20000 0x8000 ≡ some s)
    × IsValid s
    × (s.page_num ≡ page_total - kernel_pages 0x20000 0x8000)
    × ((p : ℕ) → p < kernel_pages 0x20000 0x8000 → (s.pages_map p).flag ≡ reserve)
page_init-IsValid_example = page_init-IsValid 0x20000 0x8000 boot_pages

abbrev boot : Pool
boot = initial 40

boot-IsValid : IsValid boot
boot-IsValid = initial-IsValid 40 (omega arith)

-- The pool after three pages are taken.
abbrev taken : Pool
taken = take_block 40 3 boot

boot-taken : alloc_pages 3 boot ≡ (some 40, taken)
unfolding alloc_pages initial
boot-taken = refl

alloc_pages-Taken_example : Taken 3 boot 40 taken
alloc_pages-Taken_example = alloc_pages-Taken 3 boot taken 40 boot-IsValid boot-taken

taken-Taken : Taken 3 boot 40 taken
taken-Taken = alloc_pages-Taken 3 boot taken 40 boot-IsValid boot-taken

taken_in_use : (p : ℕ) → in_range 40 3 p ≡ true → is_used (taken.pages_map p).flag ≡ true
taken_in_use p i = rw ((taken-Taken.now_used p i).0) refl

free_pages-Given_example : Given 3 taken 40 (free_pages 40 3 taken)
free_pages-Given_example = free_pages-Given 3 40 taken taken-Taken.valid (omega arith) taken_in_use

next_free : is_used (taken.pages_map 43).flag ≡ false
unfolding take_block initial
next_free = refl

-- A page at 40, and a block of five pages at 50.
abbrev blocks : Pool
blocks = record {
  pages_map = λ p. record {
    flag = free;
    ref_cnt = 0;
    free_page_num = if p == 40 then 1 else if p == 50 then 5 else 0;
  };
  pages_list = 40 ∷ 50 ∷ [];
  page_num = 6;
}

abbrev split : Pool
split = take_block 50 3 blocks

blocks-split : alloc_pages 3 blocks ≡ (some 50, split)
unfolding alloc_pages
blocks-split = refl
