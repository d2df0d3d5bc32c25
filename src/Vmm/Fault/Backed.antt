-- ===== src/Vmm/Fault/Backed.antt =====
-- A fault on a page without memory.
use os_risc_v.Prelude.{
  ℕ, ◌+◌, ◌-◌, ◌*◌, ◌%◌, ◌^◌, ◌≤◌, ◌<◌, ◌≡◌, refl, ap, subst, ◌∙◌, false, Option, none, List, some,
  ◌==◌, if◌then◌else◌, arith, Bool-cases, inl, inr,
}
use os_risc_v.Vmm.{Vma, page_down, find_vma, add_vma}
use os_risc_v.Vmm.Table.{
  Vm, is_valid, entry_frame, walk, entry_pa, index0, index1, index2, va2pa, prot2pte,
  vm_alloc_pages, mappages,
}
use os_risc_v.Vmm.Table.Tree.{Owner, IsTree, Fresh, Made, vm_alloc_pages-Made}
use os_risc_v.Vmm.Table.Translate.{Translated, mappages-Translated}
use os_risc_v.Vmm.Table.Enough.{HasLeft, Finds, vm_alloc_pages-Finds, mappages-enough}
use os_risc_v.Vmm.Space.{Space}
use os_risc_v.Vmm.Fault.{
  Window, is_prog, is_clone, page_memory, stack_vma, map_one, area_fault, faulted, do_page_fault,
}

module _ (vm vm' : Vm) (r g : ℕ) (own : ℕ → Owner) (t : IsTree vm r own)
    (fresh : Fresh vm own g vm'.pool)
    (same : (f i : ℕ) → vm'.words f i ≡ (if f == g then 0 else vm.words f i)) where
  -- A frame of the tree is not the new one.
  root-old : (r == g) ≡ false
  root-old = ground (arith, t.at_root, fresh.unowned)

  mid-old : (f i : ℕ) → own f ≡ Owner.mid i → (f == g) ≡ false
  mid-old f i o = ground (arith, o, fresh.unowned)

  low-old : (f i j : ℕ) → own f ≡ Owner.low i j → (f == g) ≡ false
  low-old f i j o = ground (arith, o, fresh.unowned)

  root-same : (i : ℕ) → vm'.words r i ≡ vm.words r i
  root-same i = same r i ∙ rw root-old refl

  mid-same : (f i j : ℕ) → own f ≡ Owner.mid i → vm'.words f j ≡ vm.words f j
  mid-same f i j o = same f j ∙ rw (mid-old f i o) refl

  low-same : (f i j k : ℕ) → own f ≡ Owner.low i j → vm'.words f k ≡ vm.words f k
  low-same f i j k o = same f k ∙ rw (low-old f i j o) refl

  fresh-Tree : IsTree vm' r own
  fresh-Tree = record {
    pool_valid = fresh.pool_valid;
    at_root = t.at_root;
    to_mid = λ i l v. ground (arith, root-same i, t.to_mid i l, v);
    to_low = λ f i j o v. ground (arith, mid-same f i j o, t.to_low f i j o, v);
    in_use = λ f o. ground (arith, t.in_use f o, fresh.kept (f - 0x80000));
  }

  fresh-walk : (i j k : ℕ) → i < 256 → walk vm'.words r i j k ≡ walk vm.words r i j k
  unfolding walk
  fresh-walk i j k l = rw (root-same i) (elim (Bool-cases (is_valid (vm.words r i))) [
    | inr n ↦ rw n refl
    | inl v ↦
        let f = entry_frame (vm.words r i) in
        let o : own f ≡ Owner.mid i = t.to_mid i l v in
        rw (v, mid-same f i j o)
          (elim (Bool-cases (is_valid (vm.words f j))) [
            | inr n ↦ rw n refl
            | inl u ↦ rw (u, low-same (entry_frame (vm.words f j)) i j k (t.to_low f i j o u)) refl
          ])
  ])

  fresh-va2pa : (x : ℕ) → x < 2 ^ 38 → va2pa vm' r x ≡ va2pa vm r x
  unfolding va2pa
  fresh-va2pa x l =
      ap (entry_pa x) (fresh-walk (index0 x) (index1 x) (index2 x) (ground (arith, l)))

-- A fault leaves the page `g` at a page, and all other addresses where they led.
abbrev pub Backed : Space → ℕ → ℕ → Space → Type 0
Backed s badpage g t = Translated s.vm s.pg_t badpage (g * 2 ^ 12) 1 t.vm

prot2pte-small : (prot : ℕ) → prot2pte prot < 2 ^ 10
unfolding prot2pte
prot2pte-small prot = ground arith

map_one-Backed :
    (s : Space) (badpage g prot : ℕ) (own : ℕ → Owner) (areas : List Vma) (vm : Vm)
    → IsTree s.vm s.pg_t own
    → Made s.vm own (some g, vm)
    → HasLeft 2 vm.pool
    → badpage % 2 ^ 12 ≡ 0
    → badpage + 2 ^ 12 ≤ 2 ^ 38
    → Backed s badpage g
        (record s { areas = areas; vm = map_one s.pg_t badpage (g * 2 ^ 12) prot vm })
map_one-Backed s badpage g prot own areas vm t (fresh, same) h a l =
    let u = fresh-Tree s.vm vm s.pg_t g own t fresh same in
    let (m, k, all, q) =
      mappages-Translated vm s.pg_t badpage (g * 2 ^ 12) 1 (prot2pte prot) own u (omega arith) a
        (omega arith) (prot2pte-small prot) (omega (arith, l)) (omega (arith, fresh.in_memory)) in
    let one : m ≡ 1 =
      all (mappages-enough s.pg_t badpage (g * 2 ^ 12) (prot2pte prot) vm a (omega arith) h) in
    let q1 =
      subst
        (λ n.
          Translated vm s.pg_t badpage (g * 2 ^ 12) n
            (mappages (some s.pg_t) badpage (g * 2 ^ 12) 1 (prot2pte prot) vm).1)
        one q in
    record {
      own = q1.own;
      tree = q1.tree;
      leads = λ x y. q1.leads x y ∙ rw (fresh-va2pa s.vm vm s.pg_t g own t fresh same x y) refl;
    }

-- An area of the program, the heap or the stack, or a mapping with no file; and no area at all.
abbrev pub IsPlain : Option Vma → Type 0
IsPlain none = 0 ≤ 0
IsPlain (some v) = (is_clone v ≡ false) × (v.file ≡ none)

area-Backed :
    (v : Vma) (s : Space) (badpage g : ℕ) (own : ℕ → Owner) (vm : Vm)
    → is_clone v ≡ false
    → v.file ≡ none
    → IsTree s.vm s.pg_t own
    → Made s.vm own (some g, vm)
    → HasLeft 2 vm.pool
    → badpage % 2 ^ 12 ≡ 0
    → badpage + 2 ^ 12 ≤ 2 ^ 38
    → Backed s badpage g (area_fault v badpage 0 (g * 2 ^ 12) s vm).1
unfolding area_fault
area-Backed v s badpage g own vm c e t made r a l =
    let b = map_one-Backed s badpage g v.prot own s.areas vm t made r a l in
    elim (Bool-cases (is_prog v)) [ inl p ↦ rw (c, p) b | inr n ↦ rw (c, n, e) b ]

-- A fault at an address of user memory that has no memory, on tables that form a tree, with at least
-- three pages left, one for the address and two for tables, in no area, or in an area that has no
-- file and is not one that sys_clone shares (VMA_CLONE): it sends SIGSEGV and maps the page that
-- `alloc_pages` gives at the page of the address. All other addresses lead where they led, and the
-- tables form a tree.
pub do_page_fault-Backed :
    (badaddr g : ℕ) (s : Space) (own : ℕ → Owner) (vm : Vm)
    → IsTree s.vm s.pg_t own
    → badaddr < 2 ^ 38
    → va2pa s.vm s.pg_t (page_down badaddr) ≡ 0
    → 3 ≤ s.vm.pool.page_num
    → vm_alloc_pages 1 s.vm ≡ (some g, vm)
    → IsPlain (find_vma badaddr s.areas)
    → (w : Option Window) × (t : Space) × (do_page_fault badaddr s ≡ some (11, w, t))
      × Backed s (page_down badaddr) g t
unfolding do_page_fault page_memory
do_page_fault-Backed badaddr g s own vm t h z n e plain =
    let made = subst (Made s.vm own) e (vm_alloc_pages-Made s.vm s.pg_t own t) in
    let a : page_down badaddr % 2 ^ 12 ≡ 0 = unfold page_down in omega arith in
    let l : page_down badaddr + 2 ^ 12 ≤ 2 ^ 38 = unfold page_down in omega (arith, h) in
    let r : HasLeft 2 vm.pool =
      subst (Finds 2) e (vm_alloc_pages-Finds 2 s.vm (record { valid = t.pool_valid; left = n })) in
    rw (z, e) (at (find_vma badaddr s.areas) plain made r a l)
  where
    at :
        (area : Option Vma)
        → IsPlain area
        → Made s.vm own (some g, vm)
        → HasLeft 2 vm.pool
        → page_down badaddr % 2 ^ 12 ≡ 0
        → page_down badaddr + 2 ^ 12 ≤ 2 ^ 38
        → (w : Option Window) × (u : Space) × (faulted
              (page_down badaddr)
              0
              area
              s
              (some (g * 2 ^ 12), vm)
            ≡ some (11, w, u))
          × Backed s (page_down badaddr) g u
    at none p made r a l = (
      none,
      record s {
        areas = (add_vma (stack_vma (page_down badaddr)) s.areas).1;
        vm = map_one s.pg_t (page_down badaddr) (g * 2 ^ 12) 3 vm;
      },
      refl,
      map_one-Backed s (page_down badaddr) g 3 own
          (add_vma (stack_vma (page_down badaddr)) s.areas).1 vm t made r a l,
    )
    at (some v) (c, f) made left a l =
        let r = area_fault v (page_down badaddr) 0 (g * 2 ^ 12) s vm in
        (r.0, r.1, refl, area-Backed v s (page_down badaddr) g own vm c f t made left a l)
