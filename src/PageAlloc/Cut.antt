-- ===== src/PageAlloc/Cut.antt =====
-- The parts of `alloc_pages`, os/kernel/page.c. A block of pages is cut from a free block: the search, the marks, and the pool that is left.
use os_risc_v.Prelude.{
  ℕ, zero, suc, ◌+◌, ◌-◌, ◌%◌, ◌^◌, ◌≤◌, ◌<◌, ◌≡◌, true, false, not, ◌&&◌, none, some, List, [],
  ◌∷◌, arith, ◌==◌, ltb, if◌then◌else◌, has, Bool-cases, inl, inr,
}
use os_risc_v.PageAlloc.{
  used, free, Page, Pool, page_total, update, first_fit, remove, mark, take_block,
}
use os_risc_v.PageAlloc.Blocks.{
  in_range, covers, total, Disjoint, covers-congr, total-congr, Disjoint-congr, covers_of_has,
  covers_start, covers-remove, Disjoint-remove, total-remove,
}
use os_risc_v.PageAlloc.Validity.{size_of, IsValid}

abbrev pub marked : Page → Page
marked c = record { flag = used; ref_cnt = (c.ref_cnt + 1) % 2 ^ 32; free_page_num = 0 }

-- The loop writes the pages of its range and no other.
pub mark_lem :
    (t n : ℕ) (m : ℕ → Page) (p : ℕ) → mark t n m p ≡ (if in_range t n p then marked (m p) else m p)
unfolding mark
mark_lem t zero m p = ground arith
mark_lem t (suc n) m p = ground (arith, mark_lem (t + 1) n (update m t (marked (m t))) p)

-- The block that the search finds is in the list and has enough pages.
pub first_fit-some :
    (m : ℕ → Page) (n : ℕ) (ps : List ℕ) (p : ℕ)
    → first_fit m n ps ≡ some p
    → (has p ps ≡ true) × (n ≤ size_of m p)
unfolding first_fit
first_fit-some m n [] p e = absurd (cc)
first_fit-some m n (q ∷ ps) p e = ground (arith, first_fit-some m n ps p)

-- The search fails exactly where every block of the list is too small.
pub first_fit-none :
    (m : ℕ → Page) (n : ℕ) (ps : List ℕ) (p : ℕ)
    → first_fit m n ps ≡ none
    → has p ps ≡ true
    → size_of m p < n
unfolding first_fit
first_fit-none m n [] p e h = absurd (cc)
first_fit-none m n (q ∷ ps) p e h = ground (arith, first_fit-none m n ps p)

-- The outcome `t` of taking `n` pages at `page` from the pool `s`.
pub record Taken (n : ℕ) (s : Pool) (page : ℕ) (t : Pool) : Type 0 where
  pub valid : IsValid t
  pub was_free : (p : ℕ) → in_range page n p ≡ true → (s.pages_map p).flag ≡ free
  pub now_used :
      (p : ℕ)
      → in_range page n p ≡ true
      → ((t.pages_map p).flag ≡ used) × ((t.pages_map p).ref_cnt ≡ 1)
  pub others_kept :
      (p : ℕ)
      → in_range page n p ≡ false
      → ((t.pages_map p).flag ≡ (s.pages_map p).flag)
        × ((t.pages_map p).ref_cnt ≡ (s.pages_map p).ref_cnt)
  pub fewer : t.page_num + n ≡ s.page_num

-- A block of `n` pages is cut from the block at `page`.
module _ (s : Pool) (page n : ℕ) (v : IsValid s) (listed : has page s.pages_list ≡ true)
    (fits : n ≤ size_of s.pages_map page) where
  abbrev m : ℕ → Page
  m = s.pages_map

  abbrev size : ℕ → ℕ
  size = size_of m

  abbrev others : List ℕ
  others = remove page s.pages_list

  -- The pages of the block are free pages of the array.
  block_free : (p : ℕ) → in_range page (size page) p ≡ true → ((m p).flag ≡ free) × (p < page_total)
  block_free p i = ground (arith, v.free_iff p, covers_of_has size page s.pages_list p listed i)

  others-covers :
      (p : ℕ)
      → covers size others p ≡ (covers size s.pages_list p && not (in_range page (size page) p))
  others-covers p = covers-remove size page s.pages_list v.disjoint listed p

  others-Disjoint : Disjoint size others
  others-Disjoint = Disjoint-remove size page s.pages_list v.disjoint listed

  others_apart : (b : ℕ) → has b others ≡ true → in_range page (size page) b ≡ false
  others_apart b h = ground (arith, others-covers b, covers_start size b others others-Disjoint h)

  -- Whatever sizes the pages of the block get, the other blocks keep theirs.
  module _ (t : ℕ → ℕ) (keep : (b : ℕ) → in_range page (size page) b ≡ false → t b ≡ size b) where
    same : (b : ℕ) → has b others ≡ true → t b ≡ size b
    same b h = keep b (others_apart b h)

    kept_covers : (p : ℕ) → covers t others p ≡ covers size others p
    kept_covers = covers-congr size t others same

    kept-Disjoint : Disjoint t others
    kept-Disjoint = Disjoint-congr size t others same others-Disjoint

    kept_total : total t others + size page ≡ total size s.pages_list
    kept_total =
        ground (arith, total-congr size t others same, total-remove size page s.pages_list listed)

  abbrev cut : Pool
  cut = take_block page n s

  abbrev size' : ℕ → ℕ
  size' = size_of cut.pages_map

  -- What becomes of each page.
  cut_map :
      (p : ℕ)
      → cut.pages_map p ≡ (
          if in_range page n p
          then marked (m p)
          else if (p == page + n) && ltb n (size page)
          then record (m p) { free_page_num = size page - n }
          else m p)
  unfolding take_block
  cut_map p = elim (Bool-cases (ltb n (size page))) [
    | inl e ↦ ground (
      arith,
      mark_lem page n
          (update m (page + n) (record (m (page + n)) { free_page_num = size page - n })) p,
    )
    | inr e ↦ ground (arith, mark_lem page n m p)
  ]

  cut_keep : (b : ℕ) → in_range page (size page) b ≡ false → size' b ≡ size b
  cut_keep b o = ground (arith, cut_map b)

  abbrev Cut : List ℕ → Type 0
  Cut bs =
      Disjoint size' bs
      × ((p : ℕ) → covers size' bs p ≡ (covers size s.pages_list p && not (in_range page n p)))
      × (total size' bs + n ≡ total size s.pages_list)

  cut_whole : size page ≡ n → Cut others
  cut_whole e = (
    kept-Disjoint size' cut_keep,
    λ p. ground (arith, kept_covers size' cut_keep p, others-covers p),
    ground (arith, kept_total size' cut_keep),
  )

  cut_part : ltb n (size page) ≡ true → Cut ((page + n) ∷ others)
  cut_part l = (
    (
      ground (arith, cut_map (page + n)),
      λ p i. ground (arith, cut_map (page + n), kept_covers size' cut_keep p, others-covers p),
      kept-Disjoint size' cut_keep,
    ),
    λ p. ground (
      arith,
      cut_map (page + n),
      kept_covers size' cut_keep p,
      others-covers p,
      covers_of_has size page s.pages_list p listed,
    ),
    ground (arith, cut_map (page + n), kept_total size' cut_keep),
  )

  cut_list : cut.pages_list ≡ (if ltb n (size page) then (page + n) ∷ others else others)
  unfolding take_block
  cut_list = ground arith

  cut_num : cut.page_num ≡ s.page_num - n
  unfolding take_block
  cut_num = ground arith

  cut_blocks : Cut cut.pages_list
  cut_blocks = elim (Bool-cases (ltb n (size page))) [
    | inl l ↦ rw (cut_list, l) (cut_part l)
    | inr l ↦ rw (cut_list, l) (cut_whole (ground arith))
  ]

  cut-IsValid : IsValid cut
  cut-IsValid =
      let c = cut_blocks in
      record {
        disjoint = c.0;
        free_iff = λ p. ground (arith, c.1 p, cut_map p, v.free_iff p);
        counted = ground (arith, c.2, cut_num, v.counted);
        used_count = λ p u. ground (arith, cut_map p, v.used_count p, v.free_count p, block_free p);
        used_in = λ p u. ground (arith, cut_map p, v.used_in p, block_free p);
        free_count = λ p u. ground (arith, cut_map p, v.free_count p);
      }

  -- What the caller of `alloc_pages` has: `n` pages that were free are in use and counted once, all
  -- other pages keep their flag and count, and the pool has `n` pages less.
  pub cut-Taken : Taken n s page cut
  cut-Taken = record {
    valid = cut-IsValid;
    was_free = λ p i. (block_free p (ground arith)).0;
    now_used = λ p i. ground (arith, cut_map p, v.free_count p, block_free p);
    others_kept = λ p o. ground (arith, cut_map p);
    fewer = ground (arith, cut_num, v.counted, cut_blocks.2);
  }
