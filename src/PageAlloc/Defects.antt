-- ===== src/PageAlloc/Defects.antt =====
-- os/kernel/page.c where it departs from what it means to do: the order of the list after a split,
-- and a `free_pages` that stops in its loop.
use os_risc_v.Prelude.{
  ℕ, zero, suc, ◌+◌, ◌<◌, ◌≡◌, ◌≢◌, refl, true, false, some, List, [], ◌∷◌, arith, ◌==◌,
  if◌then◌else◌, has,
}
use os_risc_v.PageAlloc.{
  free, Page, Pool, update, is_used, unmark, remove, take_block, alloc_pages, free_pages,
}
use os_risc_v.PageAlloc.Blocks.{in_range, covers-congr}
use os_risc_v.PageAlloc.Validity.{size_of, IsValid}
use os_risc_v.PageAlloc.Cut.{first_fit-some}
use os_risc_v.PageAlloc.Take.{alloc_pages-some}
use os_risc_v.PageAlloc.Give.{unmarked}

-- The list is in the order of addresses, as the merge of `free_pages` takes for granted.
abbrev pub Above : ℕ → List ℕ → Type 0
Above x [] = Unit
Above x (y ∷ ys) = (x < y) × Above x ys

abbrev pub IsSorted : List ℕ → Type 0
IsSorted [] = Unit
IsSorted (x ∷ xs) = Above x xs × IsSorted xs

Above-has : (x y : ℕ) (xs : List ℕ) → Above x xs → has y xs ≡ true → x < y
Above-has x y [] a h = absurd (cc)
Above-has x y (z ∷ zs) a h = ground (arith, Above-has x y zs a.1)

take_block-list :
    (page n : ℕ) (s : Pool)
    → n < size_of s.pages_map page
    → (take_block page n s).pages_list ≡ (page + n) ∷ remove page s.pages_list
unfolding take_block
take_block-list page n s l = ground arith

split_unsorted :
    (page n c : ℕ) (cs : List ℕ)
    → IsSorted (c ∷ cs)
    → has page (c ∷ cs) ≡ true
    → page ≢ c
    → ¬ IsSorted ((page + n) ∷ remove page (c ∷ cs))
unfolding remove
split_unsorted page n c cs sorted h ne r =
    let e : (page == c) ≡ false = ground arith in
    ground (arith, e, (rw e at r), Above-has c page cs sorted.0)

-- `alloc_pages` spoils the order of the list whenever it takes a part of a block that is not the
-- first of an ordered list: the rest of that block goes to the head.
pub alloc_pages-unsorted :
    (n : ℕ) (s t : Pool) (page c : ℕ) (cs : List ℕ)
    → s.pages_list ≡ c ∷ cs
    → IsSorted (c ∷ cs)
    → page ≢ c
    → n < size_of s.pages_map page
    → alloc_pages n s ≡ (some page, t)
    → ¬ IsSorted t.pages_list
alloc_pages-unsorted n s t page c cs l sorted ne part e r =
    let f = alloc_pages-some n s t page e in
    let h = (first_fit-some s.pages_map n s.pages_list page f.0).0 in
    split_unsorted page n c cs sorted (rw l at h) ne
      (rw (take_block-list page n s part, l) at (rw (← f.1) at r))

-- The loop stops at the first page that is not in use.
unmark_stop :
    (t n k u : ℕ) (m : ℕ → Page)
    → u ≡ t + k
    → k < n
    → ((p : ℕ) → in_range t k p ≡ true → is_used (m p).flag ≡ true)
    → is_used (m u).flag ≡ false
    → ((unmark t n m).0 ≡ false)
      × ((p : ℕ) → (unmark t n m).1 p ≡ (if in_range t k p then unmarked (m p) else m p))
unfolding unmark
unmark_stop t zero k u m q l a e = absurd (omega arith)
unmark_stop t (suc n) zero u m q l a e =
    let e' : is_used (m t).flag ≡ false = ground arith in (rw e', λ p. rw e' (ground arith))
unmark_stop t (suc n) (suc k) u m q l a e =
    let e' : is_used (m t).flag ≡ true = a t (ground arith) in
    let r =
      unmark_stop (t + 1) n k u (update m t (unmarked (m t))) (omega arith) (omega arith)
        (λ p i. ground (arith, a p)) (ground arith) in
    (rw e' r.0, λ p. rw e' (ground (arith, r.1 p)))

free_pages-refused :
    (page n : ℕ) (s : Pool)
    → (unmark page n s.pages_map).0 ≡ false
    → free_pages page n s ≡ record s { pages_map = (unmark page n s.pages_map).1 }
unfolding free_pages
free_pages-refused page n s e = rw e

-- Called on a range whose first `k` pages are in use and whose next page is not, where `k` is at
-- least 1 and less than the length, `free_pages` leaves list and number as they are, but marks those
-- `k` pages free: no block covers them, so they are lost, and the pool is not valid.
pub free_pages-leak :
    (page n k : ℕ) (s : Pool)
    → IsValid s
    → 0 < k
    → k < n
    → ((p : ℕ) → in_range page k p ≡ true → is_used (s.pages_map p).flag ≡ true)
    → is_used (s.pages_map (page + k)).flag ≡ false
    → let t = free_pages page n s in
      (t.pages_list ≡ s.pages_list)
      × (t.page_num ≡ s.page_num)
      × ((p : ℕ) → in_range page k p ≡ true → (t.pages_map p).flag ≡ free)
      × ¬ IsValid t
free_pages-leak page n k s v pos l a e =
    let r = unmark_stop page n k (page + k) s.pages_map refl l a e in
    rw (free_pages-refused page n s r.0) (
      refl,
      refl,
      λ p i. ground (arith, r.1 p),
      λ w. ground (
        arith,
        w.free_iff page,
        v.free_iff page,
        v.used_in page,
        r.1 page,
        a page,
        covers-congr (size_of s.pages_map) (size_of (unmark page n s.pages_map).1) s.pages_list
            (λ b h. ground (arith, r.1 b)) page,
      ),
    )
