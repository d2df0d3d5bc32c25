-- ===== src/Slob/Search.antt =====
-- When the loop of `small_free` in os/kernel/slob.c ends.
use os_risc_v.Prelude.{
  ℕ, ◌≤◌, ◌<◌, ◌≡◌, ◌≢◌, refl, sym, ◌⊎◌, inl, inr, true, false, some, List, [], ◌∷◌, ◌++◌, ltb,
  ltb→lt, Bool-cases, arith,
}
use mathlib.Core.Path.{subst}
use os_risc_v.Slob.{Block, place, fits_between}

-- The address is not that of a block of the list.
abbrev pub Avoids : ℕ → List Block → Type 0
Avoids q [] = Unit
Avoids q (b ∷ bs) = (q ≢ b.addr) × Avoids q bs

abbrev first_of : List Block → Block → Block
first_of [] p = p
first_of (b ∷ bs) p = b

first_of-add : (seen : List Block) (p b : Block) → first_of (seen ++ p ∷ []) b ≡ first_of seen p
first_of-add [] p b = refl
first_of-add (c ∷ seen) p b = refl

-- How far the loop has come from the block at `a` to the one at `p` without an end: it never steps over
-- `q` upwards.
record Walked (q a p : ℕ) : Type 0 where
  below : a < q → (p < q) × (a ≤ p)
  above : q < a → (p < q) ⊎ ((q < p) × (a ≤ p))

Walked-start : (q a : ℕ) → Walked q a a
Walked-start q a = record { below = λ l. (l, omega arith); above = λ l. inr (l, omega arith) }

Walked-step :
    (q a p b : ℕ) → Walked q a p → q ≢ a → q ≢ p → q ≢ b → fits_between q p b ≡ false → Walked q a b
Walked-step q a p b w d e f n = record {
  below = λ l. ground (arith, w.below l, e, f, n);
  above = λ l. elim (w.above l) [
    | inl u ↦ ground (arith, u, e, f, n)
    | inr u ↦ ground (arith, u, e, f, n)
  ];
}

-- Where the loop comes back to its start, it ends.
Walked-round : (q a p : ℕ) → Walked q a p → q ≢ a → q ≢ p → fits_between q p a ≡ true
Walked-round q a p w d e = elim (Bool-cases (ltb a q)) [
  | inl l ↦ ground (arith, l, w.below (ltb→lt a q l))
  | inr l ↦ elim (w.above (ground (arith, l, d))) [
    | inl u ↦ ground (arith, l, u, d)
    | inr u ↦ ground (arith, l, u, d)
  ]
]

place-some :
    (q : ℕ) (seen : List Block) (p : Block) (bs : List Block)
    → Walked q (first_of seen p).addr p.addr
    → q ≢ (first_of seen p).addr
    → q ≢ p.addr
    → Avoids q bs
    → (r : Block × List Block) × (place q seen p bs ≡ some r)
unfolding place
place-some q [] p [] w d e v = ((p, []), rw (Walked-round q p.addr p.addr w d e) refl)
place-some q (c ∷ seen) p [] w d e v = ((p, c ∷ seen), rw (Walked-round q c.addr p.addr w d e) refl)
place-some q seen p (b ∷ bs) w d e v = elim (Bool-cases (fits_between q p.addr b.addr)) [
  | inl f ↦ ((p, b ∷ (bs ++ seen)), rw f refl)
  | inr f ↦
      let i = first_of-add seen p b in
      let step = Walked-step q (first_of seen p).addr p.addr b.addr w d e v.0 f in
      let (r, g) =
        place-some q (seen ++ p ∷ []) b bs (subst (λ z. Walked q z.addr b.addr) (sym i) step)
          (subst (λ z. q ≢ z.addr) (sym i) d) v.0 v.1 in
      (r, rw f g)
]

-- The loop ends on every ring none of whose blocks is at the address, in whatever order they are.
pub place-ends :
    (q : ℕ) (p : Block) (bs : List Block)
    → Avoids q (p ∷ bs)
    → (r : Block × List Block) × (place q [] p bs ≡ some r)
place-ends q p bs v = place-some q [] p bs (Walked-start q p.addr) v.0 v.0 v.1
