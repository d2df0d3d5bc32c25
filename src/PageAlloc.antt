-- ===== src/PageAlloc.antt =====
-- The physical page allocator, os/kernel/page.c and os/kernel/include/page.h.
-- `pages_map` is a function from page numbers, `Page *` is the page number `page - pages_map`, and
-- the intrusive list of the pool is the sequence of its pages. The `int` counters hold no negative
-- number in a valid pool and are natural numbers; `ref_cnt` is a 32-bit pattern.
pub mod Blocks
pub mod Validity
pub mod Cut
pub mod Take
mod Merge
pub mod Give
mod Defects
mod Tests
use os_risc_v.Prelude.{
  ℕ, zero, suc, ◌+◌, ◌-◌, ◌*◌, ◌/◌, ◌%◌, ◌^◌, Bool, true, false, Option, none, some, List, [], ◌∷◌,
  ◌==◌, ltb, leb, if◌then◌else◌,
}

pub data Flag : Type 0 where
  reserve used free : Flag

pub record Page : Type 0 where
  pub flag : Flag
  pub ref_cnt : ℕ
  pub free_page_num : ℕ

pub record Pool : Type 0 where
  pub pages_map : ℕ → Page
  pub pages_list : List ℕ
  pub page_num : ℕ

-- PM_SIZE / PAGE_SIZE on the board that mm.h calls _QEMU.
abbrev pub page_total : ℕ
page_total = 0x800000 / 0x1000

abbrev pub update : (ℕ → Page) → ℕ → Page → ℕ → Page
update m p c a = if a == p then c else m a

abbrev pub is_used : Flag → Bool
is_used used = true
is_used _ = false

unfoldable pub align4k : ℕ → ℕ
align4k s = if s % 0x1000 == 0 then s else (s / 2 ^ 12 + 1) * 2 ^ 12 % 2 ^ 64

-- The pages of the firmware and of the kernel.
unfoldable pub kernel_pages : ℕ → ℕ → ℕ
unfolding align4k
kernel_pages k_offset k_size = align4k k_size / 2 ^ 12 + k_offset / 2 ^ 12

-- The pool in which the pages from `first` on are one free block. The array is zero before, so the
-- first free page has `ref_cnt` 0.
unfoldable pub initial : ℕ → Pool
initial first = record {
  pages_map = λ i.
      if ltb i first
      then record { flag = reserve; ref_cnt = 1; free_page_num = 0 }
      else if i == first
      then record { flag = free; ref_cnt = 0; free_page_num = page_total - i }
      else record { flag = free; ref_cnt = 0; free_page_num = 0 };
  pages_list = first ∷ [];
  page_num = page_total - first;
}

-- `page_init`, with the addresses of the linker script and K_OFFSET as arguments. `none` is the
-- failed `assert`. Where the pages taken exceed the array the source writes past its end; the model
-- is read below that only.
unfoldable pub page_init : ℕ → ℕ → Option Pool
unfolding kernel_pages initial
page_init k_offset k_size =
    if leb (align4k k_size) (page_total * 2 ^ 12)
    then some (initial (kernel_pages k_offset k_size))
    else none

-- The search of `alloc_pages`: the first page of the list whose block has `n` pages.
unfoldable pub first_fit : (ℕ → Page) → ℕ → List ℕ → Option ℕ
first_fit m n [] = none
first_fit m n (p ∷ ps) = if leb n (m p).free_page_num then some p else first_fit m n ps

-- `del_list` on the sequence of the list.
unfoldable pub remove : ℕ → List ℕ → List ℕ
remove x [] = []
remove x (y ∷ ys) = if x == y then ys else y ∷ remove x ys

-- The loop of `alloc_pages` that marks `n` pages from `t` on.
unfoldable pub mark : ℕ → ℕ → (ℕ → Page) → ℕ → Page
mark t zero m = m
mark t (suc n) m =
    mark (t + 1) n (
      update m t
        (record { flag = used; ref_cnt = ((m t).ref_cnt + 1) % 2 ^ 32; free_page_num = 0 }))

-- The block at `page` is cut to `n` pages, and the rest of it goes to the head of the list.
unfoldable pub take_block : ℕ → ℕ → Pool → Pool
unfolding remove mark
take_block page n s =
    let rest = (s.pages_map page).free_page_num - n in
    let others = remove page s.pages_list in
    let next = page + n in
    if ltb n (s.pages_map page).free_page_num
    then record {
      pages_map =
          mark page n
            (update s.pages_map next (record (s.pages_map next) { free_page_num = rest }));
      pages_list = next ∷ others;
      page_num = s.page_num - n;
    }
    else record {
      pages_map = mark page n s.pages_map;
      pages_list = others;
      page_num = s.page_num - n;
    }

unfoldable pub take_found : ℕ → Pool → Option ℕ → Option ℕ × Pool
unfolding take_block
take_found n s none = (none, s)
take_found n s (some page) = (some page, take_block page n s)

-- `alloc_pages`: the page returned, `none` for the null pointer, and the pool afterwards.
unfoldable pub alloc_pages : ℕ → Pool → Option ℕ × Pool
unfolding first_fit take_found
alloc_pages n s =
    if ltb s.page_num n then (none, s) else take_found n s (first_fit s.pages_map n s.pages_list)

-- The loop of `free_pages` over the flags. It stops at the first page that is not in use, and what
-- it has written by then stays written; the Boolean says that it came to the end.
unfoldable pub unmark : ℕ → ℕ → (ℕ → Page) → Bool × (ℕ → Page)
unmark p zero m = (true, m)
unmark p (suc n) m =
    let rest = unmark (p + 1) n (
      update m p (record (m p) { flag = free; ref_cnt = ((m p).ref_cnt + 2 ^ 32 - 1) % 2 ^ 32 })) in
    if is_used (m p).flag then rest else (false, m)

-- The page goes before the first page of the list with a larger address, or at the end.
unfoldable pub insert : ℕ → List ℕ → List ℕ
insert x [] = x ∷ []
insert x (y ∷ ys) = if ltb x y then x ∷ y ∷ ys else y ∷ insert x ys

-- The neighbours of a page in the sequence; `none` stands for the head of the list.
unfoldable pub next_in : ℕ → List ℕ → Option ℕ
next_in x [] = none
next_in x (y ∷ []) = none
next_in x (y ∷ z ∷ zs) = if x == y then some z else next_in x (z ∷ zs)

unfoldable pub prev_in : ℕ → List ℕ → Option ℕ
prev_in x [] = none
prev_in x (y ∷ []) = none
prev_in x (y ∷ z ∷ zs) = if x == z then some y else prev_in x (z ∷ zs)

-- Block `q` is joined to block `p`, if it begins where `p` ends.
unfoldable pub join : ℕ → ℕ → Pool → Pool
unfolding remove
join p q s = record s {
  pages_map = update s.pages_map p (record (s.pages_map p) {
    free_page_num = (s.pages_map p).free_page_num + (s.pages_map q).free_page_num;
  });
  pages_list = remove q s.pages_list;
}

unfoldable pub adjacent : ℕ → ℕ → Pool → Bool
adjacent p q s = p + (s.pages_map p).free_page_num == q

-- The merge with the block before: the pool, and the page at which the block now begins.
unfoldable pub merge_prev : ℕ → Option ℕ → Pool → ℕ × Pool
unfolding join adjacent
merge_prev page none s = (page, s)
merge_prev page (some p) s = if adjacent p page s then (p, join p page s) else (page, s)

unfoldable pub merge_next : ℕ → Option ℕ → Pool → Pool
unfolding join adjacent
merge_next page none s = s
merge_next page (some p) s = if adjacent page p s then join page p s else s

-- The block enters the list; then it is joined to its neighbours.
unfoldable pub give_block : ℕ → ℕ → (ℕ → Page) → Pool → Pool
unfolding insert merge_prev merge_next next_in prev_in
give_block page n m s =
    let s1 : Pool = record {
      pages_map = update m page (record (m page) { free_page_num = n });
      pages_list = insert page s.pages_list;
      page_num = s.page_num + n;
    } in
    let (first, s2) = merge_prev page (prev_in page s1.pages_list) s1 in
    merge_next first (next_in first s2.pages_list) s2

unfoldable pub free_pages : ℕ → ℕ → Pool → Pool
unfolding unmark give_block
free_pages page n s =
    let (done, m) = unmark page n s.pages_map in
    if done then give_block page n m s else record s { pages_map = m }
