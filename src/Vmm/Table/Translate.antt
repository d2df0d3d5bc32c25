-- ===== src/Vmm/Table/Translate.antt =====
-- `mappages` and `va2pa`: to which physical addresses those of user memory lead.
use os_risc_v.Prelude.{
  ℕ, ◌+◌, ◌-◌, ◌*◌, ◌/◌, ◌%◌, ◌^◌, ◌≤◌, ◌<◌, ◌≡◌, refl, ap, ◌∙◌, true, ◌&&◌, some, ltb, leb,
  if◌then◌else◌, arith, Bool-cases, inl, inr,
}
use os_risc_v.Vmm.Table.{Vm, entry_frame, entry_pa, leaf_entry, map_loop, mappages, va2pa}
use os_risc_v.Vmm.Table.Tree.{Owner, IsTree}
use os_risc_v.Vmm.Table.Loop.{Mapped, map_loop-Mapped}

-- The first `m` pages from `va` on lead to those from `pa` on, all other addresses where they led.
pub record Translated (vm : Vm) (r va pa m : ℕ) (vm' : Vm) : Type 0 where
  pub own : ℕ → Owner
  pub tree : IsTree vm' r own
  pub leads :
      (x : ℕ)
      → x < 2 ^ 38
      → va2pa vm' r x
        ≡ (if leb va x && ltb x (va + m * 2 ^ 12) then pa + (x - va) else va2pa vm r x)

leaf_frame :
    (pa d flags : ℕ)
    → pa % 2 ^ 12 ≡ 0
    → flags < 2 ^ 10
    → pa + d * 2 ^ 12 < 2 ^ 63
    → entry_frame (leaf_entry (pa + d * 2 ^ 12) flags) ≡ pa / 2 ^ 12 + d
unfolding leaf_entry
leaf_frame pa d flags a f h = ground (arith, a, f, h)

Mapped-Translated :
    (vm vm' : Vm) (r va pa m flags : ℕ)
    → va % 2 ^ 12 ≡ 0
    → pa % 2 ^ 12 ≡ 0
    → flags < 2 ^ 10
    → pa + m * 2 ^ 12 ≤ 2 ^ 63
    → Mapped vm r va pa m flags vm'
    → Translated vm r va pa m vm'
unfolding va2pa
Mapped-Translated vm vm' r va pa m flags a b f h q = record {
  own = q.own;
  tree = q.tree;
  leads = λ x l. elim (Bool-cases (leb va x && ltb x (va + m * 2 ^ 12))) [
    | inl y ↦
        let d : ℕ = x / 2 ^ 12 - va / 2 ^ 12 in
        let p : x / 2 ^ 12 ≡ va / 2 ^ 12 + d = ground (arith, y, a) in
        let w = q.inside x d l p (ground (arith, y, a)) in
        let e = leaf_frame pa d flags b f (ground (arith, y, a, h)) in
        ap (entry_pa x) w ∙ rw y (rw e (ground (arith, y, a, b)))
    | inr n ↦ ap (entry_pa x) (q.outside x l (ground (arith, n, a))) ∙ rw n refl
  ];
}

-- `mappages` of whole pages of user memory to whole pages of physical memory, on tables that form
-- a tree: it maps the first `m` pages, all of them where it returns 1, and leaves a tree. An address
-- of user memory then leads to the physical address as far from `pa` as it is from `va`, if it is in
-- these `m` pages, and else to where it led before.
pub mappages-Translated :
    (vm : Vm) (r va pa n flags : ℕ) (own : ℕ → Owner)
    → IsTree vm r own
    → 0 < n
    → va % 2 ^ 12 ≡ 0
    → pa % 2 ^ 12 ≡ 0
    → flags < 2 ^ 10
    → va + n * 2 ^ 12 ≤ 2 ^ 38
    → pa + n * 2 ^ 12 ≤ 2 ^ 63
    → (m : ℕ) × (m ≤ n)
      × ((mappages (some r) va pa n flags vm).0 ≡ true → m ≡ n)
      × Translated vm r va pa m (mappages (some r) va pa n flags vm).1
mappages-Translated vm r va pa n flags own t p a b f l h =
    let (m, k, all, q) = map_loop-Mapped n vm r va pa flags own t l h in
    rw (mappages-loop vm r va pa n flags p a b) (
      m,
      k,
      all,
      Mapped-Translated vm (map_loop r va pa n flags vm).1 r va pa m flags a b f
          (omega (arith, h, k)) q,
    )
  where
    mappages-loop :
        (vm : Vm) (r va pa n flags : ℕ)
        → 0 < n
        → va % 2 ^ 12 ≡ 0
        → pa % 2 ^ 12 ≡ 0
        → mappages (some r) va pa n flags vm ≡ map_loop r va pa n flags vm
    mappages-loop vm r va pa n flags p a b = unfold mappages in ground (arith, p, a, b)
