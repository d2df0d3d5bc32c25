-- ===== src/Vmm/Areas.antt =====
-- Areas that rise and do not overlap: what `find_vma` finds in them, and what `add_vma` does to them.
use os_risc_v.Prelude.{
  ℕ, ◌+◌, ◌%◌, ◌≤◌, ◌<◌, ◌≡◌, ◌⊎◌, inl, inr, refl, true, Bool-cases, none, some, List, [], ◌∷◌, ltb,
  leb, ◌&&◌, if◌then◌else◌, arith,
}
use os_risc_v.Vmm.{Vma, vma_end, find_vma, add_vma, page_size}

abbrev pub All {ℓ κ} : {A : Type ℓ} → (A → Type κ) → List A → Type κ
All P [] = Unit
All P (x ∷ xs) = P x × All P xs

-- From `m` on the areas rise; each has a page at least and consists of whole pages.
abbrev pub Rises : ℕ → List Vma → Type 0
Rises m [] = Unit
Rises m (v ∷ vs) =
    (m ≤ v.va)
    × (v.va < vma_end v)
    × (v.va % page_size ≡ 0)
    × (vma_end v % page_size ≡ 0)
    × Rises (vma_end v) vs

-- The addresses from `a` on and below `b` are clear of an area.
abbrev pub Apart : ℕ → ℕ → Vma → Type 0
Apart a b v = (vma_end v ≤ a) ⊎ (b ≤ v.va)

pub Rises-down : (m n : ℕ) (vs : List Vma) → m ≤ n → Rises n vs → Rises m vs
Rises-down m n [] l r = tt
Rises-down m n (v ∷ vs) l r = (omega (arith, l, r.0), r.1, r.2, r.3, r.4)

Rises-Apart : (a b m : ℕ) (vs : List Vma) → b ≤ m → Rises m vs → All (Apart a b) vs
Rises-Apart a b m [] l r = tt
Rises-Apart a b m (v ∷ vs) l r =
    (inr (omega (arith, l, r.0)), Rises-Apart a b (vma_end v) vs (omega (arith, l, r.0, r.1)) r.4)

-- An address at which nothing is found lies in no area.
pub find_vma-none :
    (x m : ℕ) (vs : List Vma) → Rises m vs → find_vma x vs ≡ none → All (Apart x (x + 1)) vs
unfolding find_vma
find_vma-none x m [] r e = tt
find_vma-none x m (v ∷ vs) r e = elim (Bool-cases (ltb x v.va)) [
  | inl l ↦
      (inr (ground (arith, l)), Rises-Apart x (x + 1) (vma_end v) vs (ground (arith, l, r.1)) r.4)
  | inr l ↦ (inl (ground (arith, l, e)), find_vma-none x (vma_end v) vs r.4 (ground (arith, l, e)))
]

pub find_vma-below : (x m : ℕ) (vs : List Vma) → x < m → Rises m vs → find_vma x vs ≡ none
unfolding find_vma
find_vma-below x m [] l r = refl
find_vma-below x m (v ∷ vs) l r = ground (arith, l, r.0)

-- What a list of areas is after an area has come into it.
pub record Entered (x : Vma) (m : ℕ) (vs ws : List Vma) : Type 0 where
  pub rises : Rises m ws
  pub finds :
      (a : ℕ) → find_vma a ws ≡ (if leb x.va a && ltb a (vma_end x) then some x else find_vma a vs)

add_vma-before : (x v : Vma) (vs : List Vma) → x.va < v.va → add_vma x (v ∷ vs) ≡ (true, x ∷ v ∷ vs)
unfolding add_vma
add_vma-before x v vs h = ground (arith, h)

add_vma-behind :
    (x v : Vma) (vs : List Vma)
    → v.va < x.va
    → add_vma x (v ∷ vs) ≡ ((add_vma x vs).0, v ∷ (add_vma x vs).1)
unfolding add_vma
add_vma-behind x v vs h = ground (arith, h)

pub add_vma-Entered :
    (x : Vma) (m : ℕ) (vs : List Vma)
    → m ≤ x.va
    → x.va < vma_end x
    → x.va % page_size ≡ 0
    → vma_end x % page_size ≡ 0
    → Rises m vs
    → All (Apart x.va (vma_end x)) vs
    → ((add_vma x vs).0 ≡ true) × Entered x m vs (add_vma x vs).1
unfolding find_vma
add_vma-Entered x m [] l h p q r c = (
  unfold add_vma in refl,
  unfold add_vma in record { rises = (l, h, p, q, tt); finds = λ a. ground arith },
)
add_vma-Entered x m (v ∷ vs) l h p q r (inr b, c) =
    rw (add_vma-before x v vs (omega (arith, h, b))) (
      refl,
      record { rises = (l, h, p, q, (b, r.1, r.2, r.3, r.4)); finds = λ a. ground (arith, b, h) },
    )
add_vma-Entered x m (v ∷ vs) l h p q r (inl b, c) =
    let (ok, ih) = add_vma-Entered x (vma_end v) vs b h p q r.4 c in
    rw (add_vma-behind x v vs (omega (arith, b, r.1))) (
      ok,
      record {
        rises = (r.0, r.1, r.2, r.3, ih.rises);
        finds = λ a. ground (arith, b, h, r.1, ih.finds a);
      },
    )
