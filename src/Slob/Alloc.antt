-- ===== src/Slob/Alloc.antt =====
-- `small_alloc` of os/kernel/slob.c as a whole.
use os_risc_v.Prelude.{
  ℕ, ◌+◌, ◌≤◌, ◌<◌, ◌≡◌, refl, ◌∙◌, true, false, Bool, ◌||◌, none, some, List, [], ◌∷◌, ◌++◌,
  append-nil, leb, Bool-cases, inl, inr, Option, Option-cases, length, arith, if◌then◌else◌,
}
use mathlib.Core.Path.{subst}
use os_risc_v.Slob.{
  Block, search, place, link_next, link_prev, relink, small_free, search_ring, grow, or_else,
  small_alloc, Result, found, starved, page_units,
}
use os_risc_v.Slob.Search.{Avoids}
use os_risc_v.Slob.Cover.{within, covers, Took, search-Took, small_free-covers}
use os_risc_v.Slob.Sentinel.{
  has_sentinel, Clear, small_free-keeps, Apart-sentinel, search-keeps, KeepsS,
}

abbrev has_fit : ℕ → List Block → Bool
has_fit n [] = false
has_fit n (b ∷ bs) = leb n b.unit_n || has_fit n bs

abbrev first_of : List Block → Block → Block
first_of [] p = p
first_of (b ∷ bs) p = b

first_of-add : (seen : List Block) (p b : Block) → first_of (seen ++ p ∷ []) b ≡ first_of seen p
first_of-add [] p b = refl
first_of-add (c ∷ seen) p b = refl

abbrev IsSome : Option (ℕ × List Block) → Type 0
IsSome none = ⊥
IsSome (some r) = Unit

search-IsSome :
    (n : ℕ) (seen : List Block) (pre : Block) (bs : List Block)
    → (has_fit n bs || leb n (first_of seen pre).unit_n) ≡ true
    → IsSome (search n seen pre bs)
unfolding search
search-IsSome n [] pre [] h = ground (arith, h)
search-IsSome n (b ∷ seen) pre [] h = ground (arith, h)
search-IsSome n seen pre (b ∷ bs) h = elim (Bool-cases (leb n b.unit_n)) [
  | inl e ↦ rw e tt
  | inr e ↦ rw e (
      search-IsSome n (seen ++ pre ∷ []) b bs (rw (first_of-add seen pre b) (ground (arith, h, e))))
]

search_ring-IsSome :
    (n : ℕ) (ring : List Block) → has_fit n ring ≡ true → IsSome (search_ring n ring)
search_ring-IsSome n [] h = absurd (cc)
search_ring-IsSome n (p ∷ bs) h = search-IsSome n [] p bs (ground (arith, h))

abbrev FitsR : ℕ → Option (List Block) → Type 0
FitsR n none = Unit
FitsR n (some r) = has_fit n r ≡ true

link-fits :
    (n : ℕ) (q p : Block) (bs : List Block)
    → n ≤ q.unit_n
    → has_fit n (link_prev p (link_next p q bs)) ≡ true
link-fits n q p [] l = ground (arith, l)
link-fits n q p (b ∷ bs) l = ground (arith, l)

relink-fits :
    (n : ℕ) (q : Block) (o : Option (Block × List Block)) → n ≤ q.unit_n → FitsR n (relink q o)
relink-fits n q none l = tt
relink-fits n q (some (p, bs)) l = link-fits n q p bs l

small_free-fits :
    (n : ℕ) (q : Block) (ring : List Block) → n ≤ q.unit_n → FitsR n (small_free q ring)
unfolding small_free
small_free-fits n q [] l = tt
small_free-fits n q (p ∷ bs) l = relink-fits n q (place q.addr [] p bs) l

abbrev Takes : ℕ → ℕ → List Block → Option (ℕ × List Block) → Type 0
Takes s n ring none = Unit
Takes s n ring (some (b, r)) =
    (has_sentinel s r ≡ true) × ((u : ℕ) → covers u r + within u b n ≡ covers u ring)

alone :
    (s n : ℕ) (p : Block) (bs : List Block)
    → 1 < n
    → has_sentinel s (p ∷ bs) ≡ true
    → length bs ≡ 0
    → p.unit_n < n
alone s n p [] l h z = ground (arith, l, h)
alone s n p (b ∷ bs) l h z = absurd (omega (arith, z))

Takes-both :
    (s n : ℕ) (ring : List Block) (o : Option (ℕ × List Block))
    → KeepsS s o
    → ((u : ℕ) → Took u n (covers u ring) o)
    → Takes s n ring o
Takes-both s n ring none k t = tt
Takes-both s n ring (some (b, r)) k t = (k, t)

search_ring-Takes :
    (s n : ℕ) (p : Block) (bs : List Block)
    → 1 < n
    → has_sentinel s (p ∷ bs) ≡ true
    → Takes s n (p ∷ bs) (search_ring n (p ∷ bs))
search_ring-Takes s n p bs l h =
    Takes-both s n (p ∷ bs) (search n [] p bs) (search-keeps s n [] p bs l (rw (append-nil bs) h))
      (λ u.
        subst (λ cs. Took u n (covers u (p ∷ cs)) (search n [] p bs)) (append-nil bs)
          (search-Took u n [] p bs (λ z. alone s n p bs l h (omega (arith, z)))))

-- The run returns `n` units at an address, off a ring that has the sentinel still and that covers
-- besides them what the ring covered, with or without the page at `a`, each unit as often.
abbrev pub Allocates : ℕ → ℕ → ℕ → List Block → Result → Type 0
Allocates s n a ring (found b r) =
    (has_sentinel s r ≡ true)
    × ((k : Bool) × ((u : ℕ)
          → covers u r + within u b n ≡ covers u ring + (if k then within u a page_units else 0)))
Allocates s n a ring other = ⊥

search_ring-Allocates :
    (s n a : ℕ) (ring base : List Block) (k : Bool) (o : Option (ℕ × List Block))
    → IsSome o
    → Takes s n ring o
    → ((u : ℕ) → covers u ring ≡ covers u base + (if k then within u a page_units else 0))
    → Allocates s n a base (or_else starved o)
search_ring-Allocates s n a ring base k none i t c = absurd i
search_ring-Allocates s n a ring base k (some (b, r)) i (h, t) c = (h, (k, λ u. t u ∙ c u))

search_ring-again :
    (s n a : ℕ) (r base : List Block)
    → 1 < n
    → has_sentinel s r ≡ true
    → has_fit n r ≡ true
    → ((u : ℕ) → covers u r ≡ covers u base + within u a page_units)
    → Allocates s n a base (or_else starved (search_ring n r))
search_ring-again s n a [] base l h f c = absurd (cc)
search_ring-again s n a (p ∷ bs) base l h f c =
    search_ring-Allocates s n a (p ∷ bs) base true (search_ring n (p ∷ bs))
      (search_ring-IsSome n (p ∷ bs) f) (search_ring-Takes s n p bs l h) c

-- `small_alloc` of more than one unit and at most a page, on a ring that has the sentinel, returns
-- after at most one call of `slob_get_pages` that gives a new page clear of the sentinel. The units it
-- returns are off the ring, which is otherwise as before or has the rest of that page.
pub small_alloc-Allocates :
    (s n a : ℕ) (p : Block) (bs : List Block)
    → 1 < n
    → n ≤ page_units
    → has_sentinel s (p ∷ bs) ≡ true
    → Avoids a (p ∷ bs)
    → Clear s (record { addr = a; unit_n = page_units })
    → Allocates s n a (p ∷ bs) (small_alloc n (some a ∷ []) (p ∷ bs))
unfolding small_alloc grow
small_alloc-Allocates s n a p bs l m h v c = elim (Option-cases (search_ring n (p ∷ bs))) [
  | inl e ↦
      let q : Block = record { addr = a; unit_n = page_units } in
      let (r, f, k) = small_free-covers q p bs v (Apart-sentinel s q p bs c h) in
      rw (e, f)
        (search_ring-again s n a r (p ∷ bs) l (small_free-keeps s q p bs r c h f)
          (subst (FitsR n) f (small_free-fits n q (p ∷ bs) m)) k)
  | inr ((b, r), e) ↦
      let t = subst (Takes s n (p ∷ bs)) e (search_ring-Takes s n p bs l h) in
      rw e (t.0, (false, λ u. t.1 u ∙ omega arith))
]
