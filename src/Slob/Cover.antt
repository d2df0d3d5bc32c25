-- ===== src/Slob/Cover.antt =====
-- Which units the free blocks cover, under the operations of os/kernel/slob.c.
use os_risc_v.Prelude.{
  ℕ, ◌+◌, ◌-◌, ◌≤◌, ◌<◌, ◌≡◌, ◌≢◌, refl, sym, ◌∙◌, false, ◌&&◌, none, some, List, [], ◌∷◌, ◌++◌,
  ◌==◌, leb, ltb, leb→le, Bool-cases, inl, inr, ap, Option, length, length-append, arith,
  if◌then◌else◌,
}
use mathlib.Core.Path.{subst}
use os_risc_v.Slob.Search.{Avoids, place-ends}
use os_risc_v.Slob.{
  Block, rest_of, search, place, join_next, link_next, link_prev, small_free, fits_between, relink,
}

-- 1 for a unit in the block of `n` units at `a`, else 0.
abbrev pub within : ℕ → ℕ → ℕ → ℕ
within u a n = if leb a u && ltb u (a + n) then 1 else 0

-- The number of blocks that cover a unit.
abbrev pub covers : ℕ → List Block → ℕ
covers u [] = 0
covers u (b ∷ bs) = within u b.addr b.unit_n + covers u bs

pub covers-append : (u : ℕ) (xs ys : List Block) → covers u (xs ++ ys) ≡ covers u xs + covers u ys
covers-append u [] ys = omega arith
covers-append u (x ∷ xs) ys = omega (arith, covers-append u xs ys)

within-split : (u a n m : ℕ) → n ≤ m → within u a n + within u (a + n) (m - n) ≡ within u a m
within-split u a n m l = ground (arith, l)

covers-rest_of :
    (u n : ℕ) (b : Block)
    → n ≤ b.unit_n
    → covers u (rest_of n b) + within u b.addr n ≡ within u b.addr b.unit_n
covers-rest_of u n b l = ground (arith, l, within-split u b.addr n b.unit_n l)

-- The blocks of a ring where the search stands.
abbrev pub around : List Block → Block → List Block → List Block
around seen p bs = p ∷ (bs ++ seen)

covers-around :
    (u : ℕ) (seen bs : List Block) (p b : Block)
    → covers u (around (seen ++ p ∷ []) b bs) ≡ covers u (around seen p (b ∷ bs))
covers-around u seen bs p b = ground (
  arith,
  covers-append u bs (seen ++ p ∷ []),
  covers-append u seen (p ∷ []),
  covers-append u bs seen,
)

-- The `n` units at the address are off the ring that covered `before`.
abbrev pub Took : ℕ → ℕ → ℕ → Option (ℕ × List Block) → Type 0
Took u n before none = Unit
Took u n before (some (a, r)) = covers u r + within u a n ≡ before

-- The search takes `n` units off the ring, which is not a single block that is large enough.
pub search-Took :
    (u n : ℕ) (seen : List Block) (pre : Block) (bs : List Block)
    → (length seen + length bs ≡ 0 → pre.unit_n < n)
    → Took u n (covers u (around seen pre bs)) (search n seen pre bs)
unfolding search
search-Took u n [] pre [] l =
    let z : leb n pre.unit_n ≡ false = ground (arith, l (omega arith)) in rw z tt
search-Took u n (b ∷ seen) pre [] l = elim (Bool-cases (leb n b.unit_n)) [
  | inl e ↦ rw e (
      omega (arith, covers-append u (rest_of n b) seen, covers-rest_of u n b (leb→le n b.unit_n e)))
  | inr e ↦ rw e tt
]
search-Took u n seen pre (b ∷ bs) l = elim (Bool-cases (leb n b.unit_n)) [
  | inl e ↦ rw e (
      omega (
        arith,
        covers-append u (rest_of n b) (bs ++ seen),
        covers-rest_of u n b (leb→le n b.unit_n e),
      ))
  | inr e ↦
      let ih =
        search-Took u n (seen ++ pre ∷ []) b bs
          (λ z. absurd (omega (arith, z, length-append seen (pre ∷ [])))) in
      rw e (
        subst (λ m. Took u n m (search n (seen ++ pre ∷ []) b bs)) (covers-around u seen bs pre b)
          ih)
]

abbrev pub Placed : ℕ → ℕ → Option (Block × List Block) → Type 0
Placed u before none = Unit
Placed u before (some (p, bs)) = covers u (p ∷ bs) ≡ before

place-Placed :
    (u q : ℕ) (seen : List Block) (p : Block) (bs : List Block)
    → Placed u (covers u (around seen p bs)) (place q seen p bs)
unfolding place
place-Placed u q [] p [] = elim (Bool-cases (fits_between q p.addr p.addr)) [
  | inl e ↦ rw e (omega arith)
  | inr e ↦ rw e tt
]
place-Placed u q (b ∷ seen) p [] = elim (Bool-cases (fits_between q p.addr b.addr)) [
  | inl e ↦ rw e (omega arith)
  | inr e ↦ rw e tt
]
place-Placed u q seen p (b ∷ bs) = elim (Bool-cases (fits_between q p.addr b.addr)) [
  | inl e ↦ rw e (omega arith)
  | inr e ↦ rw e (
      subst (λ m. Placed u m (place q (seen ++ p ∷ []) b bs)) (covers-around u seen bs p b)
        (place-Placed u q (seen ++ p ∷ []) b bs))
]

covers-join_next :
    (u : ℕ) (q : Block) (bs : List Block)
    → covers u (join_next q bs) ≡ within u q.addr q.unit_n + covers u bs
covers-join_next u q [] = refl
covers-join_next u q (b ∷ bs) = ground arith

covers-link_prev :
    (u : ℕ) (p : Block) (bs : List Block)
    → covers u (link_prev p bs) ≡ within u p.addr p.unit_n + covers u bs
covers-link_prev u p [] = refl
covers-link_prev u p (b ∷ bs) = ground arith

covers-link_next :
    (u : ℕ) (p q : Block) (bs : List Block)
    → (length bs ≡ 0 → q.addr + q.unit_n ≢ p.addr)
    → covers u (link_next p q bs) ≡ within u q.addr q.unit_n + covers u bs
covers-link_next u p q [] l =
    let z : (q.addr + q.unit_n == p.addr) ≡ false = ground (arith, l (omega arith)) in rw z refl
covers-link_next u p q (b ∷ bs) l = covers-join_next u q (b ∷ bs)

abbrev pub Filled : Option (Block × List Block) → Type 0
Filled none = Unit
Filled (some (p, bs)) = 0 < length bs

-- The loop leaves no block alone that was not alone.
place-Filled :
    (q : ℕ) (seen : List Block) (p : Block) (bs : List Block)
    → 0 < length seen + length bs
    → Filled (place q seen p bs)
unfolding place
place-Filled q [] p [] l = absurd (omega (arith, l))
place-Filled q (b ∷ seen) p [] l = elim (Bool-cases (fits_between q p.addr b.addr)) [
  | inl e ↦ rw e (omega arith)
  | inr e ↦ rw e tt
]
place-Filled q seen p (b ∷ bs) l = elim (Bool-cases (fits_between q p.addr b.addr)) [
  | inl e ↦ rw e (omega arith)
  | inr e ↦ rw e (place-Filled q (seen ++ p ∷ []) b bs (omega (arith, length-append seen (p ∷ []))))
]

-- A ring of one block does not begin where the block to be freed ends.
abbrev pub Apart : Block → List Block → Type 0
Apart q [] = Unit
Apart q (p ∷ []) = q.addr + q.unit_n ≢ p.addr
Apart q (p ∷ b ∷ bs) = Unit

place-alone :
    (q : ℕ) (p r : Block) (cs : List Block) → place q [] p [] ≡ some (r, cs) → p.addr ≡ r.addr
unfolding place
place-alone q p r cs e = ground (arith, e)

Apart-place :
    (q p r : Block) (bs cs : List Block)
    → Apart q (p ∷ bs)
    → place q.addr [] p bs ≡ some (r, cs)
    → length cs ≡ 0
    → q.addr + q.unit_n ≢ r.addr
Apart-place q p r [] cs l e z = λ h. l (h ∙ sym (place-alone q.addr p r cs e))
Apart-place q p r (b ∷ bs) cs l e z =
    let f = subst Filled e (place-Filled q.addr [] p (b ∷ bs) (omega arith)) in
    absurd (omega (arith, f, z))

covers-small_free :
    (u : ℕ) (q p r : Block) (bs cs : List Block)
    → Apart q (p ∷ bs)
    → place q.addr [] p bs ≡ some (r, cs)
    → covers u (link_prev r (link_next r q cs)) ≡ covers u (p ∷ bs) + within u q.addr q.unit_n
covers-small_free u q p r bs cs l e =
    let f = subst (Placed u (covers u (around [] p bs))) e (place-Placed u q.addr [] p bs) in
    omega (
      arith,
      f,
      covers-append u bs [],
      covers-link_prev u r (link_next r q cs),
      covers-link_next u r q cs (Apart-place q p r bs cs l e),
    )

-- A block given back to a ring that has no block at its address, in whatever order its blocks are, and
-- that is not a single block beginning where the given one ends: `small_free` ends, on a ring that
-- covers what it covered before and the block, each unit as often.
pub small_free-covers :
    (q p : Block) (bs : List Block)
    → Avoids q.addr (p ∷ bs)
    → Apart q (p ∷ bs)
    → (r : List Block) × (small_free q (p ∷ bs) ≡ some r)
      × ((u : ℕ) → covers u r ≡ covers u (p ∷ bs) + within u q.addr q.unit_n)
unfolding small_free
small_free-covers q p bs v l =
    let ((r, cs), e) = place-ends q.addr p bs v in
    (link_prev r (link_next r q cs), ap (relink q) e, λ u. covers-small_free u q p r bs cs l e)
