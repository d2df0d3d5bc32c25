-- ===== src/Vmm/Table/Unmaps.antt =====
-- `unmappages`, and that it takes back what `mappages` has mapped.
use os_risc_v.Prelude.{
  ℕ, zero, suc, ◌+◌, ◌*◌, ◌/◌, ◌%◌, ◌^◌, ◌≤◌, ◌<◌, ◌≡◌, refl, sym, ap, ◌∙◌, true, false, ◌&&◌, none,
  some, ◌==◌, ltb, leb, if◌then◌else◌, arith, Bool-cases, inl, inr,
}
use os_risc_v.Vmm.Table.{
  Vm, is_valid, entry_frame, set_word, walk, walk_va, unmap_page, unmap_loop, unmappages, map_loop,
  mappages, index0, index1, index2,
}
use os_risc_v.Vmm.Table.Tree.{Owner, IsTree}
use os_risc_v.Vmm.Table.Links.{Leads, leaf-Tree, leaf-here, leaf-there}
use os_risc_v.Vmm.Table.Maps.{same_page}
use os_risc_v.Vmm.Table.Loop.{map_loop-Mapped}

-- The walk through tables that are not there ends.
walk-stop :
    (words : ℕ → ℕ → ℕ) (r i j k : ℕ)
    → (is_valid (words r i) && is_valid (words (entry_frame (words r i)) j)) ≡ false
    → walk words r i j k ≡ none
unfolding walk
walk-stop words r i j k e = ground (arith, e)

zero_walks :
    (vm : Vm) (r i j k f g : ℕ) (own : ℕ → Owner)
    → IsTree vm r own
    → (l : i < 256) (p : Leads vm r i f) (q : Leads vm f j g) → (a b c : ℕ) → a < 256
    → walk (set_word g k 0 vm.words) r a b c
      ≡ (if a == i && (b == j && c == k) then none else walk vm.words r a b c)
zero_walks vm r i j k f g own t l p q a b c u = elim (Bool-cases (a == i && b == j)) [
  | inl y ↦ ground (arith, y, leaf-here vm r i j k f g 0 own t l p q c)
  | inr n ↦ ground (arith, n, leaf-there vm r i j k f g 0 own t l p q a b c u n)
]

stop_walks :
    (words : ℕ → ℕ → ℕ) (r i j k a b c : ℕ)
    → (is_valid (words r i) && is_valid (words (entry_frame (words r i)) j)) ≡ false
    → walk words r a b c ≡ (if a == i && (b == j && c == k) then none else walk words r a b c)
stop_walks words r i j k a b c e = ground (arith, walk-stop words r i j k e)

record Unmapped (vm : Vm) (r va m : ℕ) (own : ℕ → Owner) (vm' : Vm) : Type 0 where
  pub tree : IsTree vm' r own
  pub same_pool : vm'.pool ≡ vm.pool
  pub walks :
      (x : ℕ)
      → x < 2 ^ 38
      → walk_va vm' r x ≡ (
          if leb (va / 2 ^ 12) (x / 2 ^ 12) && ltb (x / 2 ^ 12) (va / 2 ^ 12 + m)
          then none
          else walk_va vm r x)

unmap_page-stop :
    (r va : ℕ) (vm : Vm)
    → (is_valid (vm.words r (index0 va))
        && is_valid (vm.words (entry_frame (vm.words r (index0 va))) (index1 va)))
      ≡ false
    → unmap_page r va vm ≡ vm
unfolding unmap_page
unmap_page-stop r va vm e = ground (arith, e)

unmap_page-go :
    (r va : ℕ) (vm : Vm)
    → (is_valid (vm.words r (index0 va))
        && is_valid (vm.words (entry_frame (vm.words r (index0 va))) (index1 va)))
      ≡ true
    → unmap_page r va vm ≡ record vm {
      words =
          set_word
            (entry_frame (vm.words (entry_frame (vm.words r (index0 va))) (index1 va)))
            (index2 va)
            0
            vm.words;
    }
unfolding unmap_page
unmap_page-go r va vm e = ground (arith, e)

-- The page of `va` as a range.
one_page :
    (x va : ℕ)
    → x < 2 ^ 38
    → va < 2 ^ 38
    → (index0 x == index0 va && (index1 x == index1 va && index2 x == index2 va))
      ≡ (leb (va / 2 ^ 12) (x / 2 ^ 12) && ltb (x / 2 ^ 12) (va / 2 ^ 12 + 1))
one_page x va l h = same_page x va l h ∙ ground arith

unmap_page-Unmapped :
    (vm : Vm) (r va : ℕ) (own : ℕ → Owner)
    → IsTree vm r own
    → va < 2 ^ 38
    → Unmapped vm r va 1 own (unmap_page r va vm)
unmap_page-Unmapped vm r va own t l =
    let e0 = vm.words r (index0 va) in
    let f : ℕ = entry_frame e0 in
    let e1 = vm.words f (index1 va) in
    let g : ℕ = entry_frame e1 in
    elim (Bool-cases (is_valid e0 && is_valid e1)) [
      | inr n ↦ rw (unmap_page-stop r va vm n) (record {
        tree = t;
        same_pool = refl;
        walks = λ x u.
            stop_walks vm.words r (index0 va) (index1 va) (index2 va) (index0 x) (index1 x)
              (index2 x) n
            ∙ ap (λ b. if b then none else walk_va vm r x) (one_page x va u l);
      })
      | inl y ↦
          let p : Leads vm r (index0 va) f = record { valid = ground (arith, y); frame = refl } in
          let q : Leads vm f (index1 va) g = record { valid = ground (arith, y); frame = refl } in
          rw (unmap_page-go r va vm y) (record {
            tree =
                leaf-Tree vm r (index0 va) (index1 va) (index2 va) f g 0 own t (omega (arith, l)) p
                  q;
            same_pool = refl;
            walks = λ x u.
                zero_walks vm r (index0 va) (index1 va) (index2 va) f g own t (omega (arith, l)) p q
                  (index0 x) (index1 x) (index2 x) (omega (arith, u))
                ∙ ap (λ b. if b then none else walk_va vm r x) (one_page x va u l);
          })
    ]

unmap_loop-Unmapped :
    (n : ℕ) (vm : Vm) (r va : ℕ) (own : ℕ → Owner)
    → IsTree vm r own
    → va + n * 2 ^ 12 ≤ 2 ^ 38
    → Unmapped vm r va n own (unmap_loop r va n vm)
unfolding unmap_loop
unmap_loop-Unmapped zero vm r va own t l = record {
  tree = t;
  same_pool = refl;
  walks = λ x u. ground arith;
}
unmap_loop-Unmapped (suc n) vm r va own t l =
    let p = unmap_page-Unmapped vm r va own t (omega (arith, l)) in
    let e : (va + 2 ^ 12) % 2 ^ 64 ≡ va + 2 ^ 12 = omega (arith, l) in
    let q =
      unmap_loop-Unmapped n (unmap_page r va vm) r (va + 2 ^ 12) own p.tree (omega (arith, l)) in
    rw e (record {
      tree = q.tree;
      same_pool = q.same_pool ∙ p.same_pool;
      walks = λ x u. q.walks x u ∙ rw (p.walks x u) (ground arith);
    })

-- `unmappages` of the pages that `mappages` was given takes it back, also where `mappages` stopped
-- for want of memory: pages of user memory that led nowhere lead nowhere again, every other walk is
-- as it was, and the tables form a tree.
pub unmappages-mappages :
    (vm : Vm) (r va pa n flags : ℕ) (own : ℕ → Owner)
    → IsTree vm r own
    → 0 < n
    → va % 2 ^ 12 ≡ 0
    → pa % 2 ^ 12 ≡ 0
    → va + n * 2 ^ 12 ≤ 2 ^ 38
    → pa + n * 2 ^ 12 ≤ 2 ^ 63
    → ((x : ℕ) → va ≤ x → x < va + n * 2 ^ 12 → walk_va vm r x ≡ none)
    → let back = unmappages (some r) va n (mappages (some r) va pa n flags vm).1 in
      (back.0 ≡ true)
      × ((own' : ℕ → Owner) × IsTree back.1 r own')
      × ((x : ℕ) → x < 2 ^ 38 → walk_va back.1 r x ≡ walk_va vm r x)
unfolding mappages unmappages
unmappages-mappages vm r va pa n flags own t p a b l h c =
    let z : (n == 0) ≡ false = ground (arith, p) in
    let za : (va % 2 ^ 12 == 0) ≡ true = ground (arith, a) in
    let zb : (pa % 2 ^ 12 == 0) ≡ true = ground (arith, b) in
    let (m, k, all, q) = map_loop-Mapped n vm r va pa flags own t l h in
    let s = unmap_loop-Unmapped n (map_loop r va pa n flags vm).1 r va q.own q.tree l in
    rw (z, za, zb)
      (
        refl,
        (q.own, s.tree),
        λ x u.
            s.walks x u
            ∙ elim (Bool-cases
                (leb (va / 2 ^ 12) (x / 2 ^ 12) && ltb (x / 2 ^ 12) (va / 2 ^ 12 + n))) [
                  | inl y ↦ rw y (sym (c x (ground (arith, y, a)) (ground (arith, y, a))))
                  | inr o ↦ rw o (q.outside x u (ground (arith, o, k)))
                ],
      )
