-- ===== src/Vmm/Table/Maps.antt =====
-- One round of `mappages`: what every walk of user memory finds afterwards.
use os_risc_v.Prelude.{
  ℕ, ◌/◌, ◌^◌, ◌<◌, ◌≡◌, refl, sym, subst, ◌∙◌, Bool, true, false, ◌&&◌, Option, none, some, ◌==◌,
  if◌then◌else◌, arith, Bool-cases, inl, inr,
}
use os_risc_v.Vmm.Table.{
  Vm, is_valid, vm_alloc_pages, link, next_table, walk, write_leaf, map_below, map_page, index0,
  index1, index2,
}
use os_risc_v.Vmm.Table.Tree.{Owner, mid, low, IsTree, Made, vm_alloc_pages-Made}
use os_risc_v.Vmm.Table.Links.{
  Linked, Leads, Below, own_also, root-Tree, root-walks, mid-Tree, mid-walks, mid-root, leaf-Tree,
  leaf-here, leaf-there,
}

-- What `next_table` gives below the root, and below the table at `f`.
abbrev RootNext : Vm → ℕ → ℕ → (ℕ → Owner) → Option ℕ × Vm → Type 0
RootNext vm r i own (none, vm') = vm' ≡ vm
RootNext vm r i own (some f, vm') = (own' : ℕ → Owner) × Linked vm r own vm' own' × Leads vm' r i f

abbrev MidNext : Vm → ℕ → ℕ → ℕ → ℕ → (ℕ → Owner) → Option ℕ × Vm → Type 0
MidNext vm r i f j own (none, vm') = vm' ≡ vm
MidNext vm r i f j own (some g, vm') =
    (own' : ℕ → Owner) × Linked vm r own vm' own' × Leads vm' r i f × Leads vm' f j g

next_table-root :
    (vm : Vm) (r i : ℕ) (own : ℕ → Owner)
    → IsTree vm r own
    → i < 256
    → RootNext vm r i own (next_table r i vm)
unfolding next_table
next_table-root vm r i own t l = elim (Bool-cases (is_valid (vm.words r i))) [
  | inl e ↦
      rw e (own, record { tree = t; walks = λ a j k u. refl }, record { valid = e; frame = refl })
  | inr e ↦ rw e (made (vm_alloc_pages 1 vm) (vm_alloc_pages-Made vm r own t) e)
]
  where
    made :
        (m : Option ℕ × Vm)
        → Made vm own m
        → is_valid (vm.words r i) ≡ false
        → RootNext vm r i own (link r i m)
    made (none, vm') h e = h
    made (some g, vm') (h, w) e =
        let b : Below vm r i g (link r i (some g, vm')).1 = record {
          word = λ a j. ground (arith, w a j);
        } in
        (
          own_also g (mid i) own,
          record {
            tree = root-Tree vm (link r i (some g, vm')).1 r i g own t h b l e;
            walks = root-walks vm (link r i (some g, vm')).1 r i g own t h b l e;
          },
          record { valid = ground arith; frame = ground (arith, h.in_memory) },
        )

next_table-mid :
    (vm : Vm) (r i f j : ℕ) (own : ℕ → Owner)
    → IsTree vm r own
    → i < 256
    → Leads vm r i f
    → MidNext vm r i f j own (next_table f j vm)
unfolding next_table
next_table-mid vm r i f j own t l p = elim (Bool-cases (is_valid (vm.words f j))) [
  | inl e ↦
      rw e
        (own, record { tree = t; walks = λ a b k u. refl }, p, record { valid = e; frame = refl })
  | inr e ↦ rw e (made (vm_alloc_pages 1 vm) (vm_alloc_pages-Made vm r own t) e)
]
  where
    o : own f ≡ mid i
    o = rw p.frame at (t.to_mid i l p.valid)

    made :
        (m : Option ℕ × Vm)
        → Made vm own m
        → is_valid (vm.words f j) ≡ false
        → MidNext vm r i f j own (link f j m)
    made (none, vm') h e = h
    made (some g, vm') (h, w) e =
        let b : Below vm f j g (link f j (some g, vm')).1 = record {
          word = λ a c. ground (arith, w a c);
        } in
        let u = mid-root vm (link f j (some g, vm')).1 r f j i g own t h b o e in
        (
          own_also g (low i j) own,
          record {
            tree = mid-Tree vm (link f j (some g, vm')).1 r f j i g own t h b o e;
            walks = mid-walks vm (link f j (some g, vm')).1 r f j i g own t h b o e;
          },
          record { valid = rw (u i) p.valid; frame = rw (u i) p.frame },
          record { valid = ground arith; frame = ground (arith, h.in_memory) },
        )

-- The tables after one round of `mappages`, whether it comes to its end or not.
pub record PageMapped (vm : Vm) (r i j k e : ℕ) (ok : Bool) (vm' : Vm) : Type 0 where
  pub own : ℕ → Owner
  pub tree : IsTree vm' r own
  pub walks :
      (a b c : ℕ)
      → a < 256
      → walk vm'.words r a b c
        ≡ (if ok && (a == i && (b == j && c == k)) then some e else walk vm.words r a b c)

leaf_walks :
    (vm : Vm) (r i j k f g e : ℕ) (own : ℕ → Owner)
    → IsTree vm r own
    → (l : i < 256) (p : Leads vm r i f) (q : Leads vm f j g) → is_valid e ≡ true
    → (a b c : ℕ) → a < 256
    → walk (write_leaf k e (some g, vm)).1.words r a b c
      ≡ (if a == i && (b == j && c == k) then some e else walk vm.words r a b c)
leaf_walks vm r i j k f g e own t l p q v a b c u = elim (Bool-cases (a == i && b == j)) [
  | inl y ↦ ground (arith, y, v, leaf-here vm r i j k f g e own t l p q c)
  | inr n ↦ ground (arith, n, leaf-there vm r i j k f g e own t l p q a b c u n)
]

pub map_page-PageMapped :
    (vm : Vm) (r va e : ℕ) (own : ℕ → Owner)
    → IsTree vm r own
    → index0 va < 256
    → is_valid e ≡ true
    → PageMapped vm r
        (index0 va)
        (index1 va)
        (index2 va)
        e
        (map_page r va e vm).0
        (map_page r va e vm).1
unfolding map_page
map_page-PageMapped vm r va e own t l v =
    upper (next_table r (index0 va) vm) (next_table-root vm r (index0 va) own t l)
  where
    i : ℕ
    i = index0 va

    j : ℕ
    j = index1 va

    k : ℕ
    k = index2 va

    lower :
        (vm1 : Vm) (own1 : ℕ → Owner) (f : ℕ)
        → Linked vm r own vm1 own1
        → (n : Option ℕ × Vm) → MidNext vm1 r i f j own1 n
        → PageMapped vm r i j k e (write_leaf k e n).0 (write_leaf k e n).1
    lower vm1 own1 f h (none, vm2) s =
        subst (PageMapped vm r i j k e false) (sym s)
          (record { own = own1; tree = h.tree; walks = h.walks })
    lower vm1 own1 f h (some g, vm2) (own2, h2, p, q) = record {
      own = own2;
      tree = leaf-Tree vm2 r i j k f g e own2 h2.tree l p q;
      walks = λ a b c u.
          leaf_walks vm2 r i j k f g e own2 h2.tree l p q v a b c u
          ∙ rw (h2.walks a b c u ∙ h.walks a b c u) refl;
    }

    upper :
        (n : Option ℕ × Vm)
        → RootNext vm r i own n
        → PageMapped vm r i j k e (map_below va e n).0 (map_below va e n).1
    upper (none, vm1) s =
        subst (PageMapped vm r i j k e false) (sym s)
          (record { own = own; tree = t; walks = λ a b c u. refl })
    upper (some f, vm1) (own1, h, p) =
        lower vm1 own1 f h (next_table f j vm1) (next_table-mid vm1 r i f j own1 h.tree l p)

-- Two addresses of user memory with the same indices lie on the same page.
pub same_page :
    (x va : ℕ)
    → x < 2 ^ 38
    → va < 2 ^ 38
    → (index0 x == index0 va && (index1 x == index1 va && index2 x == index2 va))
      ≡ (x / 2 ^ 12 == va / 2 ^ 12)
same_page x va l h = ground (arith, l, h)
