-- ===== src/PageAlloc/Merge.antt =====
-- The merge of two adjacent free blocks in `free_pages`, os/kernel/page.c.
use os_risc_v.Prelude.{
  ℕ, ◌+◌, ◌≡◌, refl, true, false, not, ◌&&◌, Option, none, some, List, [], ◌∷◌, arith, ◌==◌, has,
  Bool-cases, inl, inr,
}
use os_risc_v.PageAlloc.{Pool, remove, next_in, prev_in, join, adjacent, merge_prev, merge_next}
use os_risc_v.PageAlloc.Blocks.{
  in_range, covers, Disjoint, size_pos, has-remove, covers-remove, Disjoint-remove, total-remove,
  covers-grow, total-grow, Disjoint-grow, covers_of_has,
}
use os_risc_v.PageAlloc.Validity.{size_of, IsValid}

-- The pool `t` has the flags, the counts and the number of free pages of `s`, and is valid.
pub record Same (s t : Pool) : Type 0 where
  pub valid : IsValid t
  pub flags : (p : ℕ) → (t.pages_map p).flag ≡ (s.pages_map p).flag
  pub counts : (p : ℕ) → (t.pages_map p).ref_cnt ≡ (s.pages_map p).ref_cnt
  pub number : t.page_num ≡ s.page_num

pub Same-refl : (s : Pool) → IsValid s → Same s s
Same-refl s v = record { valid = v; flags = λ p. refl; counts = λ p. refl; number = refl }

pub Same-trans : (s t u : Pool) → Same s t → Same t u → Same s u
Same-trans s t u a b = record {
  valid = b.valid;
  flags = λ p. ground (arith, a.flags p, b.flags p);
  counts = λ p. ground (arith, a.counts p, b.counts p);
  number = ground (arith, a.number, b.number);
}

module _ (s : Pool) (p q : ℕ) (v : IsValid s) (has_p : has p s.pages_list ≡ true)
    (has_q : has q s.pages_list ≡ true) (meet : adjacent p q s ≡ true) where
  abbrev size : ℕ → ℕ
  size = size_of s.pages_map

  abbrev t : Pool
  t = join p q s

  abbrev size' : ℕ → ℕ
  size' = size_of t.pages_map

  abbrev left : List ℕ
  left = remove q s.pages_list

  starts : p + size p ≡ q
  unfolding adjacent
  starts = ground arith

  apart : (p == q) ≡ false
  apart = ground (arith, starts, size_pos size p s.pages_list v.disjoint has_p)

  has-left : has p left ≡ true
  has-left = ground (arith, has-remove size q p s.pages_list v.disjoint, apart)

  left-Disjoint : Disjoint size left
  left-Disjoint = Disjoint-remove size q s.pages_list v.disjoint has_q

  left-covers :
      (r : ℕ) → covers size left r ≡ (covers size s.pages_list r && not (in_range q (size q) r))
  left-covers r = covers-remove size q s.pages_list v.disjoint has_q r

  same : (b : ℕ) → (b == p) ≡ false → size' b ≡ size b
  unfolding join
  same b e = ground arith

  grown : size' p ≡ size p + size q
  unfolding join
  grown = ground arith

  map_t :
      (r : ℕ)
      → ((t.pages_map r).flag ≡ (s.pages_map r).flag)
        × ((t.pages_map r).ref_cnt ≡ (s.pages_map r).ref_cnt)
  unfolding join
  map_t r = ground arith

  list_t : (t.pages_list ≡ left) × (t.page_num ≡ s.page_num)
  unfolding join
  list_t = (refl, refl)

  join-Same : Same s t
  join-Same = record {
    valid = record {
      disjoint = rw (list_t.0) (
          Disjoint-grow size size' p (size q) same grown left left-Disjoint has-left
            (λ r i. ground (arith, starts, left-covers r)));
      free_iff = λ r. rw (list_t.0) (
          ground (
            arith,
            map_t r,
            v.free_iff r,
            left-covers r,
            starts,
            covers_of_has size q s.pages_list r has_q,
            covers-grow size size' p (size q) same grown left left-Disjoint has-left r,
          ));
      counted = rw (list_t.0) (
          ground (
            arith,
            list_t,
            v.counted,
            total-remove size q s.pages_list has_q,
            total-grow size size' p (size q) same grown left left-Disjoint has-left,
          ));
      used_count = λ r u. ground (arith, map_t r, v.used_count r);
      used_in = λ r u. ground (arith, map_t r, v.used_in r);
      free_count = λ r u. ground (arith, map_t r, v.free_count r);
    };
    flags = λ r. (map_t r).0;
    counts = λ r. (map_t r).1;
    number = list_t.1;
  }

pub has-prev_in : (x p : ℕ) (bs : List ℕ) → prev_in x bs ≡ some p → has p bs ≡ true
unfolding prev_in
has-prev_in x p [] e = cc
has-prev_in x p (y ∷ []) e = cc
has-prev_in x p (y ∷ z ∷ zs) e = ground (arith, has-prev_in x p (z ∷ zs))

pub has-next_in : (x p : ℕ) (bs : List ℕ) → next_in x bs ≡ some p → has p bs ≡ true
unfolding next_in
has-next_in x p [] e = cc
has-next_in x p (y ∷ []) e = cc
has-next_in x p (y ∷ z ∷ zs) e = ground (arith, has-next_in x p (z ∷ zs))

-- The merge with the block before keeps the pool; the block that it leaves is in the list.
pub merge_prev-Same :
    (page : ℕ) (o : Option ℕ) (s : Pool)
    → IsValid s
    → has page s.pages_list ≡ true
    → ((p : ℕ) → o ≡ some p → has p s.pages_list ≡ true)
    → Same s (merge_prev page o s).1
      × (has (merge_prev page o s).0 (merge_prev page o s).1.pages_list ≡ true)
unfolding merge_prev
merge_prev-Same page none s v h w = (Same-refl s v, h)
merge_prev-Same page (some p) s v h w = elim (Bool-cases (adjacent p page s)) [
  | inl e ↦ rw e (join-Same s p page v (w p refl) h e, has-left s p page v (w p refl) h e)
  | inr e ↦ rw e (Same-refl s v, h)
]

pub merge_next-Same :
    (page : ℕ) (o : Option ℕ) (s : Pool)
    → IsValid s
    → has page s.pages_list ≡ true
    → ((p : ℕ) → o ≡ some p → has p s.pages_list ≡ true)
    → Same s (merge_next page o s)
unfolding merge_next
merge_next-Same page none s v h w = Same-refl s v
merge_next-Same page (some p) s v h w = elim (Bool-cases (adjacent page p s)) [
  | inl e ↦ rw e (join-Same s page p v h (w p refl) e)
  | inr e ↦ rw e (Same-refl s v)
]
