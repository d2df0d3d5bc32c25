-- ===== src/Vmm/Gaps.antt =====
-- The gap that `find_map_area` finds.
use os_risc_v.Prelude.{
  ℕ, zero, suc, ◌+◌, ◌*◌, ◌%◌, ◌^◌, ◌≤◌, ◌<◌, ◌≡◌, inl, inr, refl, sym, subst, ◌∙◌, Bool-cases,
  Option, Option-cases, none, some, List, [], ◌∷◌, ltb, leb, ◌&&◌, if◌then◌else◌, length, arith,
}
use os_risc_v.Vmm.{
  Vma, vma_end, find_vma, page_size, map_low, map_top, page_down, rounds, scan, auto_find,
  find_map_area,
}
use os_risc_v.Vmm.Areas.{All, Rises, Apart, find_vma-none}

-- The areas that reach beyond an address: what `_auto_find_map_area` may still run into.
abbrev pub count_beyond : ℕ → List Vma → ℕ
count_beyond a [] = 0
count_beyond a (v ∷ vs) = (if ltb a (vma_end v) then 1 else 0) + count_beyond a vs

count_beyond_mono : (a b : ℕ) (vs : List Vma) → a ≤ b → count_beyond b vs ≤ count_beyond a vs
count_beyond_mono a b [] l = omega arith
count_beyond_mono a b (v ∷ vs) l = ground (arith, l, count_beyond_mono a b vs)

-- What the search may do with an area that it runs into at or behind `a`.
record Ahead (a : ℕ) (vs : List Vma) (v : Vma) : Type 0 where
  beyond : a < vma_end v
  whole : vma_end v % page_size ≡ 0
  fewer : count_beyond (vma_end v) vs < count_beyond a vs

Ahead-cons : (a : ℕ) (v w : Vma) (vs : List Vma) → Ahead a vs w → Ahead a (v ∷ vs) w
Ahead-cons a v w vs h = record {
  beyond = h.beyond;
  whole = h.whole;
  fewer = ground (arith, h.fewer, h.beyond);
}

find_vma-Ahead :
    (a x m : ℕ) (vs : List Vma) (v : Vma)
    → a ≤ x
    → Rises m vs
    → find_vma x vs ≡ some v
    → Ahead a vs v
unfolding find_vma
find_vma-Ahead a x m [] v l r e = absurd (cc)
find_vma-Ahead a x m (w ∷ vs) v l r e = elim (Bool-cases (leb w.va x && ltb x (vma_end w))) [
  | inl i ↦ subst (Ahead a (w ∷ vs)) (let q : w ≡ v = ground (arith, i, e) in q) (record {
    beyond = ground (arith, i, l);
    whole = r.3;
    fewer = ground (arith, i, l, count_beyond_mono a (vma_end w) vs);
  })
  | inr o ↦ Ahead-cons a w v vs (find_vma-Ahead a x (vma_end w) vs v l r.4 (ground (arith, o, e)))
]

scan-hit : (n x : ℕ) (vs : List Vma) (v : Vma) → find_vma x vs ≡ some v → scan (suc n) x vs ≡ some v
unfolding scan
scan-hit n x vs v e = rw (e, scan)

scan-miss :
    (n x : ℕ) (vs : List Vma) → find_vma x vs ≡ none → scan (suc n) x vs ≡ scan n (x + page_size) vs
unfolding scan
scan-miss n x vs e = rw (e, scan)

scan-Ahead :
    (n a x m : ℕ) (vs : List Vma) (v : Vma)
    → a ≤ x
    → Rises m vs
    → scan n x vs ≡ some v
    → Ahead a vs v
scan-Ahead zero a x m vs v l r e = unfold scan in absurd (cc)
scan-Ahead (suc n) a x m vs v l r e = elim (Option-cases (find_vma x vs)) [
  | inl o ↦
      scan-Ahead n a (x + page_size) m vs v (omega (arith, l)) r (sym (scan-miss n x vs o) ∙ e)
  | inr (w, i) ↦ find_vma-Ahead a x m vs v l r (i ∙ sym (scan-hit n x vs w i) ∙ e)
]

pub Apart-page :
    (a m : ℕ) (vs : List Vma)
    → a % page_size ≡ 0
    → Rises m vs
    → All (Apart a (a + 1)) vs
    → All (Apart a (a + page_size)) vs
Apart-page a m [] h r c = tt
Apart-page a m (v ∷ vs) h r (inl c, cs) = (inl c, Apart-page a (vma_end v) vs h r.4 cs)
Apart-page a m (v ∷ vs) h r (inr c, cs) =
    (inr (omega (arith, c, h, r.2)), Apart-page a (vma_end v) vs h r.4 cs)

Apart-join :
    (a b c m : ℕ) (vs : List Vma)
    → Rises m vs
    → All (Apart a b) vs
    → All (Apart b c) vs
    → All (Apart a c) vs
Apart-join a b c m [] r p q = tt
Apart-join a b c m (v ∷ vs) r (inl p, ps) (q, qs) =
    (inl p, Apart-join a b c (vma_end v) vs r.4 ps qs)
Apart-join a b c m (v ∷ vs) r (inr p, ps) (inl q, qs) = absurd (omega (arith, p, q, r.1))
Apart-join a b c m (v ∷ vs) r (inr p, ps) (inr q, qs) =
    (inr q, Apart-join a b c (vma_end v) vs r.4 ps qs)

-- Where a loop over a page at least finds nothing, its pages are clear of all areas.
scan-none :
    (n a m : ℕ) (vs : List Vma)
    → a % page_size ≡ 0
    → Rises m vs
    → scan (suc n) a vs ≡ none
    → All (Apart a (a + suc n * page_size)) vs
scan-none zero a m vs h r e = elim (Option-cases (find_vma a vs)) [
  | inl o ↦ Apart-page a m vs h r (find_vma-none a m vs r o)
  | inr (w, i) ↦ absurd (cc (scan-hit 0 a vs w i))
]
scan-none (suc n) a m vs h r e = elim (Option-cases (find_vma a vs)) [
  | inl o ↦
      Apart-join a (a + page_size) (a + suc (suc n) * page_size) m vs r
        (Apart-page a m vs h r (find_vma-none a m vs r o))
        (subst (λ b. All (Apart (a + page_size) b) vs) (omega arith)
          (scan-none n (a + page_size) m vs (omega (arith, h)) r
            (sym (scan-miss (suc n) a vs o) ∙ e)))
  | inr (w, i) ↦ absurd (cc (scan-hit (suc n) a vs w i))
]

pub record Gap (len : ℕ) (vs : List Vma) (a : ℕ) : Type 0 where
  pub from_low : map_low ≤ a
  pub below_top : a < map_top
  pub whole : a % page_size ≡ 0
  pub clear : All (Apart a (a + len)) vs

abbrev pub Answer : ℕ → List Vma → Option ℕ → Type 0
Answer len vs none = Unit
Answer len vs (some a) = Gap len vs a

-- Whole pages from `a` on, within the addresses that do not wrap around.
module _ (len k m : ℕ) (vs : List Vma) (pages : len ≡ suc k * page_size) (small : len < 2 ^ 63)
    (r : Rises m vs) where
  -- The two loops of the search over the pages from `a` on.
  rounds-all : (a : ℕ) → a < 2 ^ 63 → rounds a ((a + len) % 2 ^ 64) ≡ suc k
  unfolding rounds
  rounds-all a l = omega (arith, pages, small, l)

  rounds-rest : (a : ℕ) → a < 2 ^ 62 → rounds (a + page_size) ((a + len) % 2 ^ 64) ≡ k
  unfolding rounds
  rounds-rest a l = omega (arith, pages, small, l)

  scan-All-none :
      (a : ℕ) → a % page_size ≡ 0 → scan (suc k) a vs ≡ none → All (Apart a (a + len)) vs
  scan-All-none a h e = rw pages (scan-none k a m vs h r e)

  auto_find-Gap :
      (f a : ℕ)
      → count_beyond a vs < f
      → map_low ≤ a
      → a % page_size ≡ 0
      → (o : Option ℕ) × (auto_find f a len vs ≡ some o) × Answer len vs o
  unfolding auto_find
  auto_find-Gap zero a c l h = absurd (omega (arith, c))
  auto_find-Gap (suc f) a c l h = elim (Bool-cases (ltb a map_top)) [
    | inr e ↦ (none, rw e refl, tt)
    | inl e ↦ elim (Option-cases (find_vma a vs)) [
      | inr (v, i) ↦
          let d = find_vma-Ahead a a m vs v (omega arith) r i in
          let (o, q, w) =
            auto_find-Gap f (vma_end v) (omega (arith, d.fewer, c)) (omega (arith, d.beyond, l))
              d.whole in
          (o, rw (e, i) q, w)
      | inl n ↦ elim (Option-cases (scan k (a + page_size) vs)) [
        | inr (v, i) ↦
            let d = scan-Ahead k a (a + page_size) m vs v (omega arith) r i in
            let (o, q, w) =
              auto_find-Gap f (vma_end v) (omega (arith, d.fewer, c)) (omega (arith, d.beyond, l))
                d.whole in
            (o, rw (e, n, rounds-rest a (ground (arith, e)), i) q, w)
        | inl i ↦ (
          some a,
          rw (e, n, rounds-rest a (ground (arith, e)), i) refl,
          record {
            from_low = l;
            below_top = ground (arith, e);
            whole = h;
            clear = scan-All-none a h (scan-miss k a vs n ∙ i);
          },
        )
      ]
    ]
  ]

  pub find_map_area-Gap :
      (f start : ℕ)
      → count_beyond map_low vs < f
      → (o : Option ℕ) × (find_map_area f start len vs ≡ some o) × Answer len vs o
  unfolding find_map_area
  find_map_area-Gap f start c =
      let a : ℕ = page_down start in
      let (o, q, w) = auto_find-Gap f map_low c (omega arith) (omega arith) in
      elim (Bool-cases (leb map_low start && ltb start map_top)) [
        | inr e ↦ (o, rw e q, w)
        | inl e ↦ elim (Option-cases (scan (suc k) a vs)) [
          | inr (v, i) ↦ (o, rw (e, rounds-all a (ground (arith, e)), i) q, w)
          | inl i ↦ (
            some a,
            rw (e, rounds-all a (ground (arith, e)), i) refl,
            record {
              from_low = ground (arith, e);
              below_top = ground (arith, e);
              whole = omega arith;
              clear = scan-All-none a (omega arith) i;
            },
          )
        ]
      ]

pub count_beyond-le : (a : ℕ) (vs : List Vma) → count_beyond a vs ≤ length vs
count_beyond-le a [] = omega arith
count_beyond-le a (v ∷ vs) = ground (arith, count_beyond-le a vs)
