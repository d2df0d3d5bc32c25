-- ===== src/Slob/Sentinel.antt =====
-- The block `free_small_blocks` of os/kernel/slob.c, which is of one unit and stays on the ring.
use os_risc_v.Prelude.{
  ℕ, ◌+◌, ◌<◌, ◌≡◌, ◌≢◌, refl, ◌∙◌, true, false, Bool, ◌&&◌, ◌||◌, none, some, List, [], ◌∷◌, ◌++◌,
  append-nil, ◌==◌, leb, Bool-cases, inl, inr, Option, arith,
}
use mathlib.Core.Path.{subst}
use os_risc_v.Slob.{
  Block, rest_of, search, place, link_next, link_prev, relink, small_free, fits_between,
}
use os_risc_v.Slob.Cover.{Apart, around}

abbrev pub is_sentinel : ℕ → Block → Bool
is_sentinel s b = (b.addr == s) && (b.unit_n == 1)

abbrev pub has_sentinel : ℕ → List Block → Bool
has_sentinel s [] = false
has_sentinel s (b ∷ bs) = is_sentinel s b || has_sentinel s bs

has_sentinel-append :
    (s : ℕ) (xs ys : List Block)
    → has_sentinel s (xs ++ ys) ≡ (has_sentinel s xs || has_sentinel s ys)
has_sentinel-append s [] ys = refl
has_sentinel-append s (x ∷ xs) ys = ground (arith, has_sentinel-append s xs ys)

-- The block does not touch the sentinel.
pub record Clear (s : ℕ) (q : Block) : Type 0 where
  pub stops : q.addr + q.unit_n ≢ s
  pub starts : s + 1 ≢ q.addr

has_sentinel-around :
    (s : ℕ) (seen bs : List Block) (p b : Block)
    → has_sentinel s (around (seen ++ p ∷ []) b bs) ≡ has_sentinel s (around seen p (b ∷ bs))
has_sentinel-around s seen bs p b = ground (
  arith,
  has_sentinel-append s bs (seen ++ p ∷ []),
  has_sentinel-append s seen (p ∷ []),
  has_sentinel-append s bs seen,
)

abbrev KeepsP : ℕ → Bool → Option (Block × List Block) → Type 0
KeepsP s b none = Unit
KeepsP s b (some (p, bs)) = has_sentinel s (p ∷ bs) ≡ b

place-keeps :
    (s q : ℕ) (seen : List Block) (p : Block) (bs : List Block)
    → KeepsP s (has_sentinel s (around seen p bs)) (place q seen p bs)
unfolding place
place-keeps s q [] p [] = elim (Bool-cases (fits_between q p.addr p.addr)) [
  | inl e ↦ rw e refl
  | inr e ↦ rw e tt
]
place-keeps s q (b ∷ seen) p [] = elim (Bool-cases (fits_between q p.addr b.addr)) [
  | inl e ↦ rw e refl
  | inr e ↦ rw e tt
]
place-keeps s q seen p (b ∷ bs) = elim (Bool-cases (fits_between q p.addr b.addr)) [
  | inl e ↦ rw e refl
  | inr e ↦ rw e (
      subst (λ m. KeepsP s m (place q (seen ++ p ∷ []) b bs)) (has_sentinel-around s seen bs p b)
        (place-keeps s q (seen ++ p ∷ []) b bs))
]

relink-keeps :
    (s : ℕ) (q p : Block) (bs : List Block)
    → Clear s q
    → has_sentinel s (p ∷ bs) ≡ true
    → has_sentinel s (link_prev p (link_next p q bs)) ≡ true
relink-keeps s q p [] c h = ground (arith, c.stops, c.starts, h)
relink-keeps s q p (b ∷ bs) c h = ground (arith, c.stops, c.starts, h)

abbrev KeepsR : ℕ → Option (List Block) → Type 0
KeepsR s none = Unit
KeepsR s (some r) = has_sentinel s r ≡ true

relink-result :
    (s : ℕ) (q : Block) (o : Option (Block × List Block)) (r : List Block)
    → Clear s q
    → KeepsP s true o
    → relink q o ≡ some r
    → has_sentinel s r ≡ true
relink-result s q none r c k e = absurd (cc)
relink-result s q (some (p, bs)) r c k e = subst (λ o. KeepsR s o) e (relink-keeps s q p bs c k)

-- A ring with the sentinel keeps it where a block comes back that does not touch it.
pub small_free-keeps :
    (s : ℕ) (q p : Block) (bs r : List Block)
    → Clear s q
    → has_sentinel s (p ∷ bs) ≡ true
    → small_free q (p ∷ bs) ≡ some r
    → has_sentinel s r ≡ true
unfolding small_free
small_free-keeps s q p bs r c h e =
    let i : has_sentinel s (around [] p bs) ≡ true = rw (append-nil bs) h in
    relink-result s q (place q.addr [] p bs) r c
      (subst (λ b. KeepsP s b (place q.addr [] p bs)) i (place-keeps s q.addr [] p bs)) e

pub Apart-sentinel :
    (s : ℕ) (q p : Block) (bs : List Block)
    → Clear s q
    → has_sentinel s (p ∷ bs) ≡ true
    → Apart q (p ∷ bs)
Apart-sentinel s q p [] c h = ground (arith, c.stops, h)
Apart-sentinel s q p (b ∷ bs) c h = tt

abbrev pub KeepsS : ℕ → Option (ℕ × List Block) → Type 0
KeepsS s none = Unit
KeepsS s (some (a, r)) = has_sentinel s r ≡ true

-- The search takes more than one unit, so it leaves the sentinel.
pub search-keeps :
    (s n : ℕ) (seen : List Block) (pre : Block) (bs : List Block)
    → 1 < n
    → has_sentinel s (around seen pre bs) ≡ true
    → KeepsS s (search n seen pre bs)
unfolding search
search-keeps s n [] pre [] l h = let z : leb n pre.unit_n ≡ false = ground (arith, l, h) in rw z tt
search-keeps s n (b ∷ seen) pre [] l h = elim (Bool-cases (leb n b.unit_n)) [
  | inl e ↦ rw e (ground (arith, l, h, e, has_sentinel-append s (rest_of n b) seen))
  | inr e ↦ rw e tt
]
search-keeps s n seen pre (b ∷ bs) l h = elim (Bool-cases (leb n b.unit_n)) [
  | inl e ↦ rw e (ground (arith, l, h, e, has_sentinel-append s (rest_of n b) (bs ++ seen)))
  | inr e ↦
      rw e (search-keeps s n (seen ++ pre ∷ []) b bs l (has_sentinel-around s seen bs pre b ∙ h))
]
