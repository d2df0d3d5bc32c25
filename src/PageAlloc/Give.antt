-- ===== src/PageAlloc/Give.antt =====
-- `free_pages` of os/kernel/page.c: its loop, and the block that enters the list.
use os_risc_v.Prelude.{
  ℕ, zero, suc, ◌+◌, ◌-◌, ◌%◌, ◌^◌, ◌<◌, ◌≡◌, refl, true, false, Option, arith, if◌then◌else◌, has,
}
use os_risc_v.PageAlloc.{
  free, Page, Pool, update, is_used, unmark, insert, next_in, prev_in, merge_prev, merge_next,
  give_block, free_pages,
}
use os_risc_v.PageAlloc.Blocks.{
  in_range, covers, covers-congr, total-congr, Disjoint-congr, covers_start, has-insert,
  covers-insert, total-insert, Disjoint-insert,
}
use os_risc_v.PageAlloc.Validity.{size_of, IsValid}
use os_risc_v.PageAlloc.Merge.{
  Same, Same-trans, merge_prev-Same, merge_next-Same, has-prev_in, has-next_in,
}

abbrev pub unmarked : Page → Page
unmarked c = record c { flag = free; ref_cnt = (c.ref_cnt + 2 ^ 32 - 1) % 2 ^ 32 }

-- Over pages that are all in use the loop comes to its end and writes exactly its range.
pub unmark_lem :
    (t n : ℕ) (m : ℕ → Page)
    → ((p : ℕ) → in_range t n p ≡ true → is_used (m p).flag ≡ true)
    → ((unmark t n m).0 ≡ true)
      × ((p : ℕ) → (unmark t n m).1 p ≡ (if in_range t n p then unmarked (m p) else m p))
unfolding unmark
unmark_lem t zero m a = (refl, λ p. ground arith)
unmark_lem t (suc n) m a =
    let r = unmark_lem (t + 1) n (update m t (unmarked (m t))) (λ p i. ground (arith, a p)) in
    (ground (arith, a t, r.0), λ p. ground (arith, a t, r.1 p))

-- The outcome `t` of giving `n` pages at `page` back to the pool `s`.
pub record Given (n : ℕ) (s : Pool) (page : ℕ) (t : Pool) : Type 0 where
  pub valid : IsValid t
  pub now_free :
      (p : ℕ)
      → in_range page n p ≡ true
      → ((t.pages_map p).flag ≡ free) × ((t.pages_map p).ref_cnt ≡ 0)
  pub others_kept :
      (p : ℕ)
      → in_range page n p ≡ false
      → ((t.pages_map p).flag ≡ (s.pages_map p).flag)
        × ((t.pages_map p).ref_cnt ≡ (s.pages_map p).ref_cnt)
  pub more : t.page_num ≡ s.page_num + n

module _ (n page : ℕ) (s : Pool) (v : IsValid s) (some_pages : 0 < n)
    (in_use : (p : ℕ) → in_range page n p ≡ true → is_used (s.pages_map p).flag ≡ true) where
  abbrev m : ℕ → Page
  m = (unmark page n s.pages_map).1

  -- The pool when the block has entered the list.
  abbrev entered : Pool
  entered = record {
    pages_map = update m page (record (m page) { free_page_num = n });
    pages_list = insert page s.pages_list;
    page_num = s.page_num + n;
  }

  abbrev size : ℕ → ℕ
  size = size_of s.pages_map

  abbrev size' : ℕ → ℕ
  size' = size_of entered.pages_map

  map_m : (p : ℕ) → m p ≡ (if in_range page n p then unmarked (s.pages_map p) else s.pages_map p)
  map_m = (unmark_lem page n s.pages_map in_use).1

  free_out : (p : ℕ) → in_range page n p ≡ true → covers size s.pages_list p ≡ false
  free_out p i = ground (arith, in_use p i, v.free_iff p)

  same : (b : ℕ) → has b s.pages_list ≡ true → size' b ≡ size b
  same b h =
      ground
        (arith, map_m b, covers_start size b s.pages_list v.disjoint h, free_out b, free_out page)

  covers_same : (p : ℕ) → covers size' s.pages_list p ≡ covers size s.pages_list p
  covers_same = covers-congr size size' s.pages_list same

  size_page : size' page ≡ n
  size_page = ground arith

  entered-IsValid : IsValid entered
  entered-IsValid = record {
    disjoint =
        Disjoint-insert size' page s.pages_list (ground (arith, size_page))
          (λ p i. ground (arith, covers_same p, free_out p, size_page))
          (Disjoint-congr size size' s.pages_list same v.disjoint);
    free_iff = λ p. ground (
      arith,
      covers-insert size' page s.pages_list p,
      covers_same p,
      map_m p,
      v.free_iff p,
      v.used_in p,
      in_use p,
      size_page,
    );
    counted = ground (
      arith,
      total-insert size' page s.pages_list,
      total-congr size size' s.pages_list same,
      v.counted,
      size_page,
    );
    used_count = λ p u. ground (arith, map_m p, v.used_count p);
    used_in = λ p u. ground (arith, map_m p, v.used_in p);
    free_count = λ p u. ground (arith, map_m p, v.free_count p, v.used_count p, in_use p);
  }

  abbrev prev : Option ℕ
  prev = prev_in page entered.pages_list

  listed : has page entered.pages_list ≡ true
  listed = ground (arith, has-insert size page page s.pages_list)

  merged_prev :
      Same entered (merge_prev page prev entered).1
      × (has (merge_prev page prev entered).0 (merge_prev page prev entered).1.pages_list ≡ true)
  merged_prev =
      merge_prev-Same page prev entered entered-IsValid listed
        (λ p e. has-prev_in page p entered.pages_list e)

  abbrev second : Pool
  second = (merge_prev page prev entered).1

  abbrev first : ℕ
  first = (merge_prev page prev entered).0

  given : Same entered (give_block page n m s)
  unfolding give_block
  given =
      Same-trans entered second (merge_next first (next_in first second.pages_list) second)
        merged_prev.0
        (merge_next-Same first (next_in first second.pages_list) second merged_prev.0.valid
          merged_prev.1 (λ p e. has-next_in first p second.pages_list e))

  free_pages_eq : free_pages page n s ≡ give_block page n m s
  unfolding free_pages
  free_pages_eq = rw ((unmark_lem page n s.pages_map in_use).0)

  -- `free_pages` of one or more pages that are all in use makes them free and uncounted, keeps flag
  -- and count of every other page, counts `n` free pages more, and leaves a valid pool.
  pub free_pages-Given : Given n s page (free_pages page n s)
  free_pages-Given = rw free_pages_eq (record {
    valid = given.valid;
    now_free =
        λ p i. ground (arith, given.flags p, given.counts p, map_m p, v.used_count p, in_use p);
    others_kept = λ p o. ground (arith, given.flags p, given.counts p, map_m p);
    more = given.number;
  })
