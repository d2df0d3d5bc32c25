-- ===== src/Vmm/Table/Enough.antt =====
-- Pages left for `alloc_pages`, `vm_alloc_pages` and `mappages`, os/kernel/page.c and vmm.c.
use os_risc_v.Prelude.{
  ℕ, ◌+◌, ◌%◌, ◌^◌, ◌≤◌, ◌<◌, ◌≡◌, refl, ap, true, Option, none, some, List, [], ◌∷◌, arith, has,
  Bool-cases, inl, inr,
}
use os_risc_v.PageAlloc.{Pool, alloc_pages}
use os_risc_v.PageAlloc.Blocks.{total}
use os_risc_v.PageAlloc.Validity.{size_of, IsValid}
use os_risc_v.PageAlloc.Take.{alloc_pages-Taken, alloc_pages-none_iff}
use os_risc_v.Vmm.Table.{
  Vm, is_valid, index0, index1, link, give_frames, vm_alloc_pages, next_table, map_page, map_below,
  leaf_entry, map_loop, mappages,
}

-- The pool is valid and has `n` pages left.
pub record HasLeft (n : ℕ) (s : Pool) : Type 0 where
  pub valid : IsValid s
  pub left : n ≤ s.page_num

total-empty :
    (size : ℕ → ℕ) (bs : List ℕ) → ((b : ℕ) → has b bs ≡ true → size b < 1) → total size bs ≡ 0
total-empty size [] h = refl
total-empty size (b ∷ bs) h =
    ground (arith, h b, total-empty size bs (λ c i. h c (ground (arith, i))))

-- The pages that `a` leaves, where it gives one.
abbrev Gives : ℕ → Option ℕ × Pool → Type 0
Gives n (none, t) = ⊥
Gives n (some p, t) = HasLeft n t

alloc_one-Gives : (n : ℕ) (s : Pool) → HasLeft (n + 1) s → Gives n (alloc_pages 1 s)
alloc_one-Gives n s h = go (alloc_pages 1 s) refl
  where
    go : (a : Option ℕ × Pool) → alloc_pages 1 s ≡ a → Gives n a
    go (none, t) e =
        let small = (alloc_pages-none_iff 1 s h.valid).0.0 (ap (λ x. x.0) e) in
        let z = total-empty (size_of s.pages_map) s.pages_list small in
        absurd (omega (arith, z, h.valid.counted, h.left))
    go (some p, t) e =
        let k = alloc_pages-Taken 1 s t p h.valid e in
        record { valid = k.valid; left = omega (arith, k.fewer, h.left) }

-- A table, or the frame of a page, is found or made.
abbrev pub Finds : ℕ → Option ℕ × Vm → Type 0
Finds n (none, vm) = ⊥
Finds n (some f, vm) = HasLeft n vm.pool

give-Finds : (n : ℕ) (vm : Vm) (a : Option ℕ × Pool) → Gives n a → Finds n (give_frames 1 vm a)
give-Finds n vm (none, t) g = absurd g
give-Finds n vm (some p, t) g = g

pub vm_alloc_pages-Finds :
    (n : ℕ) (vm : Vm) → HasLeft (n + 1) vm.pool → Finds n (vm_alloc_pages 1 vm)
unfolding vm_alloc_pages
vm_alloc_pages-Finds n vm h = give-Finds n vm (alloc_pages 1 vm.pool) (alloc_one-Gives n vm.pool h)

link-Finds : (n f i : ℕ) (x : Option ℕ × Vm) → Finds n x → Finds n (link f i x)
link-Finds n f i (none, vm) h = absurd h
link-Finds n f i (some g, vm) h = h

next_table-Finds : (n f i : ℕ) (vm : Vm) → HasLeft (n + 1) vm.pool → Finds n (next_table f i vm)
unfolding next_table
next_table-Finds n f i vm h = elim (Bool-cases (is_valid (vm.words f i))) [
  | inl v ↦ rw v (record { valid = h.valid; left = omega (arith, h.left) })
  | inr v ↦ rw v (link-Finds n f i (vm_alloc_pages 1 vm) (vm_alloc_pages-Finds n vm h))
]

map_page-enough : (r va e : ℕ) (vm : Vm) → HasLeft 2 vm.pool → (map_page r va e vm).0 ≡ true
unfolding map_page
map_page-enough r va e vm h =
    below (next_table r (index0 va) vm) (next_table-Finds 1 r (index0 va) vm h)
  where
    leaf :
        (f : ℕ) (vm : Vm) (x : Option ℕ × Vm)
        → next_table f (index1 va) vm ≡ x
        → Finds 0 x
        → (map_below va e (some f, vm)).0 ≡ true
    leaf f vm (none, w) q h = absurd h
    leaf f vm (some g, w) q h = rw q refl

    below : (x : Option ℕ × Vm) → Finds 1 x → (map_below va e x).0 ≡ true
    below (none, vm) h = absurd h
    below (some f, vm) h =
        leaf f vm (next_table f (index1 va) vm) refl (next_table-Finds 0 f (index1 va) vm h)

-- A page is mapped where there are two pages left for its tables.
pub mappages-enough :
    (r va pa flags : ℕ) (vm : Vm)
    → va % 2 ^ 12 ≡ 0
    → pa % 2 ^ 12 ≡ 0
    → HasLeft 2 vm.pool
    → (mappages (some r) va pa 1 flags vm).0 ≡ true
unfolding mappages map_loop
mappages-enough r va pa flags vm a b h =
    rw (a, b) (rw (map_page-enough r va (leaf_entry pa flags) vm h) refl)
