-- ===== src/PageAlloc/Validity.antt =====
-- The invariant of the page pool of os/kernel/page.c, and `page_init`.
use os_risc_v.Prelude.{ℕ, ◌-◌, ◌<◌, ◌≡◌, refl, Bool, true, false, ◌&&◌, some, arith, ltb}
use os_risc_v.PageAlloc.{
  Flag, reserve, free, Page, Pool, page_total, is_used, kernel_pages, initial, page_init,
}
use os_risc_v.PageAlloc.Blocks.{covers, total, Disjoint}

abbrev pub size_of : (ℕ → Page) → ℕ → ℕ
size_of m p = (m p).free_page_num

abbrev pub is_free : Flag → Bool
is_free free = true
is_free _ = false

-- The blocks of the list are disjoint and cover exactly the free pages, all of the array; the pool
-- counts them; a page in use has been counted once, a free page is not counted.
pub record IsValid (s : Pool) : Type 0 where
  pub disjoint : Disjoint (size_of s.pages_map) s.pages_list
  pub free_iff :
      (p : ℕ)
      → covers (size_of s.pages_map) s.pages_list p
        ≡ (is_free (s.pages_map p).flag && ltb p page_total)
  pub counted : s.page_num ≡ total (size_of s.pages_map) s.pages_list
  pub used_count : (p : ℕ) → is_used (s.pages_map p).flag ≡ true → (s.pages_map p).ref_cnt ≡ 1
  pub used_in : (p : ℕ) → is_used (s.pages_map p).flag ≡ true → p < page_total
  pub free_count : (p : ℕ) → is_free (s.pages_map p).flag ≡ true → (s.pages_map p).ref_cnt ≡ 0

pub initial-IsValid : (first : ℕ) → first < page_total → IsValid (initial first)
unfolding initial
initial-IsValid first h = record {
  disjoint = (ground arith, λ p i. refl, tt);
  free_iff = λ p. ground arith;
  counted = ground arith;
  used_count = λ p u. ground arith;
  used_in = λ p u. ground arith;
  free_count = λ p u. ground arith;
}

-- `page_init` succeeds, where firmware and kernel leave at least one page: the pool is valid, it
-- counts all pages from the first free one on, and the pages below that are reserved.
pub page_init-IsValid :
    (k_offset k_size : ℕ)
    → kernel_pages k_offset k_size < page_total
    → (s : Pool) × (page_init k_offset k_size ≡ some s)
      × IsValid s
      × (s.page_num ≡ page_total - kernel_pages k_offset k_size)
      × ((p : ℕ) → p < kernel_pages k_offset k_size → (s.pages_map p).flag ≡ reserve)
unfolding page_init
page_init-IsValid k_offset k_size h = (
  initial (kernel_pages k_offset k_size),
  ground arith,
  initial-IsValid (kernel_pages k_offset k_size) h,
  refl,
  λ p l. ground arith,
)
