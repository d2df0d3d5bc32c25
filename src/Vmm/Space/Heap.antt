-- ===== src/Vmm/Space/Heap.antt =====
-- sys_brk where the heap grows, and sys_munmap, on the areas of the process.
use os_risc_v.Prelude.{
  ℕ, ◌+◌, ◌-◌, ◌*◌, ◌/◌, ◌^◌, ◌≤◌, ◌<◌, ◌≡◌, inl, inr, refl, subst, true, false, Bool-cases, none,
  some, List, [], ◌∷◌, ltb, leb, ◌==◌, ◌&&◌, if◌then◌else◌, arith,
}
use os_risc_v.Vmm.{Vma, vma_end, find_vma, page_size}
use os_risc_v.Vmm.Areas.{Rises-down, Rises, find_vma-below}
use os_risc_v.Vmm.Space.{Space, brk_vma, del_vma, drop_vma, sys_munmap}

-- What the areas are after `n` pages from `a` on have come to the heap, as far as they were in none.
pub record Grown (a n : ℕ) (vs ws : List Vma) : Type 0 where
  pub rises : Rises 0 ws
  pub kept : (x : ℕ) (v : Vma) → find_vma x vs ≡ some v → find_vma x ws ≡ some v
  pub inside :
      (x : ℕ)
      → a ≤ x
      → x < a + n * page_size
      → find_vma x vs ≡ none
      → (b : ℕ) × (find_vma x ws ≡ some (brk_vma b)) × (b ≤ x) × (x < b + page_size)
  pub outside :
      (x : ℕ) → (leb a x && ltb x (a + n * page_size)) ≡ false → find_vma x ws ≡ find_vma x vs

-- The address of the page behind that of the old end, and the number of the pages from there to the
-- page of the new end, this one included.
abbrev pub first_page : ℕ → ℕ
first_page brk = (brk / 2 ^ 12 + 1) * 2 ^ 12

abbrev pub new_pages : ℕ → ℕ → ℕ
new_pages brk addr = addr / 2 ^ 12 - brk / 2 ^ 12

-- What the areas are when `v` has gone.
pub record Dropped (m : ℕ) (v : Vma) (vs ws : List Vma) : Type 0 where
  pub rises : Rises m ws
  pub finds :
      (x : ℕ) → find_vma x ws ≡ (if leb v.va x && ltb x (vma_end v) then none else find_vma x vs)

del_vma-Dropped :
    (a m : ℕ) (vs : List Vma) (v : Vma)
    → Rises m vs
    → find_vma a vs ≡ some v
    → (m ≤ v.va) × Dropped m v vs (del_vma v.va vs)
unfolding find_vma del_vma
del_vma-Dropped a m [] v r e = absurd (cc)
del_vma-Dropped a m (w ∷ vs) v r e = elim (Bool-cases (leb w.va a && ltb a (vma_end w))) [
  | inl y ↦
      let z : w ≡ v = ground (arith, y, e) in
      subst (λ u. (m ≤ u.va) × Dropped m u (w ∷ vs) (del_vma u.va (w ∷ vs))) z
        (
          r.0,
          rw (refl_test w.va) (record {
            rises = Rises-down m (vma_end w) vs (omega (arith, r.0, r.1)) r.4;
            finds = λ x. ground (arith, find_vma-below x (vma_end w) vs, r.4);
          }),
        )
  | inr n ↦
      let (l, d) = del_vma-Dropped a (vma_end w) vs v r.4 (ground (arith, n, e)) in
      let k : (w.va == v.va) ≡ false = ground (arith, l, r.1) in
      (
        omega (arith, l, r.0, r.1),
        rw k (record {
          rises = (r.0, r.1, r.2, r.3, d.rises);
          finds = λ x. ground (arith, d.finds x, l, r.1);
        }),
      )
]
  where
    refl_test : (n : ℕ) → (n == n) ≡ true
    refl_test n = ground arith

-- `sys_munmap`, on areas that rise and do not overlap, takes away the area that holds the address:
-- its addresses are then in no area, every other address is in the area in which it was, and the
-- areas rise and do not overlap. Where no area holds the address it fails and changes nothing.
pub sys_munmap-Dropped :
    (start : ℕ) (s : Space)
    → Rises 0 s.areas
    → ((v : Vma)
        → find_vma start s.areas ≡ some v
        → ((sys_munmap start s).0 ≡ true) × Dropped 0 v s.areas (sys_munmap start s).1.areas)
      × (find_vma start s.areas ≡ none → sys_munmap start s ≡ (false, s))
unfolding sys_munmap drop_vma
sys_munmap-Dropped start s r = (
  λ v e. rw (e, sys_munmap) (refl, (del_vma-Dropped start 0 s.areas v r e).1),
  λ e. rw (e, sys_munmap) refl,
)
