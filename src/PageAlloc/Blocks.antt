-- ===== src/PageAlloc/Blocks.antt =====
-- Sequences of free blocks: which pages they cover, that they are disjoint, and how many pages they
-- have. A block is the number of its first page; `size` gives its length.
use os_risc_v.Prelude.{
  ℕ, ◌+◌, ◌<◌, ◌≡◌, refl, inl, inr, Bool, true, false, not, ◌&&◌, ◌||◌, List, [], ◌∷◌, arith, ◌==◌,
  ltb, leb, has, Bool-cases,
}
use os_risc_v.PageAlloc.{remove, insert}

abbrev pub in_range : ℕ → ℕ → ℕ → Bool
in_range b n p = leb b p && ltb p (b + n)

module _ (size : ℕ → ℕ) where
  abbrev pub covers : List ℕ → ℕ → Bool
  covers [] p = false
  covers (b ∷ bs) p = in_range b (size b) p || covers bs p

  abbrev pub total : List ℕ → ℕ
  total [] = 0
  total (b ∷ bs) = size b + total bs

  -- No block is empty, and no page is in two blocks.
  abbrev pub Disjoint : List ℕ → Type 0
  Disjoint [] = Unit
  Disjoint (b ∷ bs) =
      (0 < size b) × ((p : ℕ) → in_range b (size b) p ≡ true → covers bs p ≡ false) × Disjoint bs

-- Blocks of the same sizes are the same blocks.
module _ (s t : ℕ → ℕ) where
  pub covers-congr :
      (bs : List ℕ)
      → ((b : ℕ) → has b bs ≡ true → t b ≡ s b)
      → (p : ℕ) → covers t bs p ≡ covers s bs p
  covers-congr [] e p = refl
  covers-congr (b ∷ bs) e p = ground (arith, e b, covers-congr bs (λ c i. e c (ground arith)) p)

  pub total-congr :
      (bs : List ℕ) → ((b : ℕ) → has b bs ≡ true → t b ≡ s b) → total t bs ≡ total s bs
  total-congr [] e = refl
  total-congr (b ∷ bs) e = ground (arith, e b, total-congr bs (λ c i. e c (ground arith)))

  pub Disjoint-congr :
      (bs : List ℕ) → ((b : ℕ) → has b bs ≡ true → t b ≡ s b) → Disjoint s bs → Disjoint t bs
  Disjoint-congr [] e d = tt
  Disjoint-congr (b ∷ bs) e d = (
    ground (arith, e b),
    λ p i. ground (arith, e b, d.1 p, covers-congr bs (λ c j. e c (ground arith)) p),
    Disjoint-congr bs (λ c i. e c (ground arith)) d.2,
  )

module _ (size : ℕ → ℕ) where
  -- A block of the sequence covers its pages.
  pub covers_of_has :
      (x : ℕ) (bs : List ℕ) (p : ℕ)
      → has x bs ≡ true
      → in_range x (size x) p ≡ true
      → covers size bs p ≡ true
  covers_of_has x [] p h i = cc
  covers_of_has x (b ∷ bs) p h i = ground (arith, covers_of_has x bs p)

  pub size_pos : (x : ℕ) (bs : List ℕ) → Disjoint size bs → has x bs ≡ true → 0 < size x
  size_pos x [] d h = absurd (cc)
  size_pos x (b ∷ bs) d h = ground (arith, d.0, size_pos x bs d.2)

  pub covers_start :
      (x : ℕ) (bs : List ℕ) → Disjoint size bs → has x bs ≡ true → covers size bs x ≡ true
  covers_start x bs d h = covers_of_has x bs x h (ground (arith, size_pos x bs d h))

  -- The first block is not in the rest of the sequence.
  pub head_out : (b : ℕ) (bs : List ℕ) → Disjoint size (b ∷ bs) → has b bs ≡ false
  head_out b bs d = ground (arith, d.0, d.1 b, covers_start b bs d.2)

  pub has-remove :
      (x y : ℕ) (bs : List ℕ) → Disjoint size bs → has y (remove x bs) ≡ (has y bs && not (y == x))
  unfolding remove
  has-remove x y [] d = refl
  has-remove x y (b ∷ bs) d = ground (arith, has-remove x y bs d.2, head_out b bs d)

  pub covers-remove :
      (x : ℕ) (bs : List ℕ)
      → Disjoint size bs
      → has x bs ≡ true
      → (p : ℕ) → covers size (remove x bs) p ≡ (covers size bs p && not (in_range x (size x) p))
  unfolding remove
  covers-remove x [] d h p = cc
  covers-remove x (b ∷ bs) d h p = elim (Bool-cases (x == b)) [
    | inl e ↦ ground (arith, d.1 p)
    | inr e ↦
        let tail : has x bs ≡ true = ground arith in
        ground (arith, covers-remove x bs d.2 tail p, d.1 p, covers_of_has x bs p tail)
  ]

  pub Disjoint-remove :
      (x : ℕ) (bs : List ℕ) → Disjoint size bs → has x bs ≡ true → Disjoint size (remove x bs)
  unfolding remove
  Disjoint-remove x [] d h = tt
  Disjoint-remove x (b ∷ bs) d h = elim (Bool-cases (x == b)) [
    | inl e ↦ rw e d.2
    | inr e ↦ rw e (
      d.0,
      λ p i. ground (arith, d.1 p, covers-remove x bs d.2 (ground arith) p),
      Disjoint-remove x bs d.2 (ground arith),
    )
  ]

  pub total-remove :
      (x : ℕ) (bs : List ℕ) → has x bs ≡ true → total size (remove x bs) + size x ≡ total size bs
  unfolding remove
  total-remove x [] h = absurd (cc)
  total-remove x (b ∷ bs) h = ground (arith, total-remove x bs)

  pub has-insert : (x y : ℕ) (bs : List ℕ) → has y (insert x bs) ≡ ((y == x) || has y bs)
  unfolding insert
  has-insert x y [] = refl
  has-insert x y (b ∷ bs) = ground (arith, has-insert x y bs)

  pub covers-insert :
      (x : ℕ) (bs : List ℕ) (p : ℕ)
      → covers size (insert x bs) p ≡ (in_range x (size x) p || covers size bs p)
  unfolding insert
  covers-insert x [] p = refl
  covers-insert x (b ∷ bs) p = ground (arith, covers-insert x bs p)

  pub total-insert : (x : ℕ) (bs : List ℕ) → total size (insert x bs) ≡ size x + total size bs
  unfolding insert
  total-insert x [] = refl
  total-insert x (b ∷ bs) = ground (arith, total-insert x bs)

  pub Disjoint-insert :
      (x : ℕ) (bs : List ℕ)
      → 0 < size x
      → ((p : ℕ) → in_range x (size x) p ≡ true → covers size bs p ≡ false)
      → Disjoint size bs
      → Disjoint size (insert x bs)
  unfolding insert
  Disjoint-insert x [] s a d = (s, a, tt)
  Disjoint-insert x (b ∷ bs) s a d = elim (Bool-cases (ltb x b)) [
    | inl e ↦ rw e (s, a, d)
    | inr e ↦ rw e (
      d.0,
      λ p i. ground (arith, d.1 p, a p, covers-insert x bs p),
      Disjoint-insert x bs s (λ p i. ground (arith, a p)) d.2,
    )
  ]

-- Block `x` grows by `n` pages that no block covers.
module _ (s t : ℕ → ℕ) (x n : ℕ) (same : (b : ℕ) → (b == x) ≡ false → t b ≡ s b)
    (grown : t x ≡ s x + n) where
  pub covers-grow :
      (bs : List ℕ)
      → Disjoint s bs
      → has x bs ≡ true
      → (p : ℕ) → covers t bs p ≡ (covers s bs p || in_range (x + s x) n p)
  covers-grow [] d h p = absurd (cc)
  covers-grow (b ∷ bs) d h p = elim (Bool-cases (b == x)) [
    | inl e ↦
        ground (arith, covers-congr s t bs (λ c i. ground (arith, same c, head_out s b bs d)) p)
    | inr e ↦ ground (arith, same b e, covers-grow bs d.2 (ground arith) p)
  ]

  pub total-grow : (bs : List ℕ) → Disjoint s bs → has x bs ≡ true → total t bs ≡ total s bs + n
  total-grow [] d h = absurd (cc)
  total-grow (b ∷ bs) d h = elim (Bool-cases (b == x)) [
    | inl e ↦ ground (arith, total-congr s t bs (λ c i. ground (arith, same c, head_out s b bs d)))
    | inr e ↦ ground (arith, same b e, total-grow bs d.2 (ground arith))
  ]

  pub Disjoint-grow :
      (bs : List ℕ)
      → Disjoint s bs
      → has x bs ≡ true
      → ((p : ℕ) → in_range (x + s x) n p ≡ true → covers s bs p ≡ false)
      → Disjoint t bs
  Disjoint-grow [] d h a = tt
  Disjoint-grow (b ∷ bs) d h a = elim (Bool-cases (b == x)) [
    | inl e ↦
        let other : (c : ℕ) → has c bs ≡ true → t c ≡ s c =
          λ c i. ground (arith, same c, head_out s b bs d) in
        (
          ground (arith, d.0),
          λ p i. ground (arith, d.1 p, a p, covers-congr s t bs other p),
          Disjoint-congr s t bs other d.2,
        )
    | inr e ↦ (
      ground (arith, d.0, same b e),
      λ p i. ground (arith, same b e, d.1 p, a p, covers-grow bs d.2 (ground arith) p),
      Disjoint-grow bs d.2 (ground arith) (λ p i. ground (arith, a p)),
    )
  ]
