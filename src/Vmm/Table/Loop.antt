-- ===== src/Vmm/Table/Loop.antt =====
-- `mappages`: what every walk of user memory finds afterwards.
use os_risc_v.Prelude.{
  ℕ, zero, suc, ◌+◌, ◌*◌, ◌/◌, ◌%◌, ◌^◌, ◌≤◌, ◌<◌, ◌≡◌, refl, ap, ◌∙◌, true, false, ◌&&◌, some,
  ◌==◌, ltb, leb, if◌then◌else◌, arith, Bool-cases, inl, inr,
}
use os_risc_v.Vmm.Table.{
  Vm, is_valid, walk_va, map_page, map_loop, leaf_entry, index0, index1, index2,
}
use os_risc_v.Vmm.Table.Tree.{Owner, IsTree}
use os_risc_v.Vmm.Table.Maps.{PageMapped, map_page-PageMapped, same_page}

-- What `mappages` leaves: the first `m` pages from `va` on lead to the pages from `pa` on, and every
-- other walk of user memory is as before.
pub record Mapped (vm : Vm) (r va pa m flags : ℕ) (vm' : Vm) : Type 0 where
  pub own : ℕ → Owner
  pub tree : IsTree vm' r own
  pub inside :
      (x d : ℕ)
      → x < 2 ^ 38
      → x / 2 ^ 12 ≡ va / 2 ^ 12 + d
      → d < m
      → walk_va vm' r x ≡ some (leaf_entry (pa + d * 2 ^ 12) flags)
  pub outside :
      (x : ℕ)
      → x < 2 ^ 38
      → (leb (va / 2 ^ 12) (x / 2 ^ 12) && ltb (x / 2 ^ 12) (va / 2 ^ 12 + m)) ≡ false
      → walk_va vm' r x ≡ walk_va vm r x

leaf_entry-valid : (pa flags : ℕ) → is_valid (leaf_entry pa flags) ≡ true
unfolding leaf_entry
leaf_entry-valid pa flags = ground arith

page_walk :
    (vm : Vm) (r va e : ℕ)
    → PageMapped vm r
        (index0 va)
        (index1 va)
        (index2 va)
        e
        (map_page r va e vm).0
        (map_page r va e vm).1
    → (x : ℕ) → x < 2 ^ 38
    → va < 2 ^ 38
    → walk_va (map_page r va e vm).1 r x
      ≡ (if (map_page r va e vm).0 && x / 2 ^ 12 == va / 2 ^ 12 then some e else walk_va vm r x)
page_walk vm r va e p x l h =
    p.walks (index0 x) (index1 x) (index2 x) (omega (arith, l))
    ∙ ap (λ b. if (map_page r va e vm).0 && b then some e else walk_va vm r x) (same_page x va l h)

map_loop-fail :
    (n : ℕ) (vm : Vm) (r va pa flags : ℕ)
    → (map_page r va (leaf_entry pa flags) vm).0 ≡ false
    → map_loop r va pa (suc n) flags vm ≡ (false, (map_page r va (leaf_entry pa flags) vm).1)
unfolding map_loop
map_loop-fail n vm r va pa flags e = rw (e, map_loop)

map_loop-go :
    (n : ℕ) (vm : Vm) (r va pa flags : ℕ)
    → (map_page r va (leaf_entry pa flags) vm).0 ≡ true
    → va + 2 ^ 12 < 2 ^ 64
    → pa + 2 ^ 12 < 2 ^ 64
    → map_loop r va pa (suc n) flags vm
      ≡ map_loop r (va + 2 ^ 12) (pa + 2 ^ 12) n flags (map_page r va (leaf_entry pa flags) vm).1
unfolding map_loop
map_loop-go n vm r va pa flags e l h =
    let p : (va + 2 ^ 12) % 2 ^ 64 ≡ va + 2 ^ 12 = omega (arith, l) in
    let q : (pa + 2 ^ 12) % 2 ^ 64 ≡ pa + 2 ^ 12 = omega (arith, h) in rw (e, p, q) refl

inside_step :
    (vm vm1 vm2 : Vm) (r va pa m flags : ℕ)
    → va < 2 ^ 38
    → Mapped vm1 r (va + 2 ^ 12) (pa + 2 ^ 12) m flags vm2
    → ((x : ℕ)
        → x < 2 ^ 38
        → walk_va vm1 r x
          ≡ (if x / 2 ^ 12 == va / 2 ^ 12 then some (leaf_entry pa flags) else walk_va vm r x))
    → (x d : ℕ) → x < 2 ^ 38
    → x / 2 ^ 12 ≡ va / 2 ^ 12 + d
    → d < suc m
    → walk_va vm2 r x ≡ some (leaf_entry (pa + d * 2 ^ 12) flags)
inside_step vm vm1 vm2 r va pa m flags l q w x zero u v b =
    q.outside x u (ground (arith, v))
    ∙ w x u
    ∙ ground
        (arith, v, ap (λ y. leaf_entry y flags) (let z : pa ≡ pa + 0 * 2 ^ 12 = omega arith in z))
inside_step vm vm1 vm2 r va pa m flags l q w x (suc d) u v b =
    q.inside x d u (omega (arith, v)) (omega (arith, b))
    ∙ ap (λ y. some (leaf_entry y flags)) (omega arith)

pub map_loop-Mapped :
    (n : ℕ) (vm : Vm) (r va pa flags : ℕ) (own : ℕ → Owner)
    → IsTree vm r own
    → va + n * 2 ^ 12 ≤ 2 ^ 38
    → pa + n * 2 ^ 12 ≤ 2 ^ 63
    → (m : ℕ) × (m ≤ n)
      × ((map_loop r va pa n flags vm).0 ≡ true → m ≡ n)
      × Mapped vm r va pa m flags (map_loop r va pa n flags vm).1
map_loop-Mapped zero vm r va pa flags own t l h = (
  0,
  omega arith,
  λ e. refl,
  unfold map_loop in
      record {
        own = own;
        tree = t;
        inside = λ x d u v w. absurd (omega (arith, w));
        outside = λ x u v. refl;
      },
)
map_loop-Mapped (suc n) vm r va pa flags own t l h =
    let e = leaf_entry pa flags in
    let p = map_page-PageMapped vm r va e own t (omega (arith, l)) (leaf_entry-valid pa flags) in
    let vm1 : Vm = (map_page r va e vm).1 in
    elim (Bool-cases (map_page r va e vm).0) [
      | inr stop ↦ (
        0,
        omega arith,
        rw (map_loop-fail n vm r va pa flags stop) λ u. absurd (cc),
        rw (map_loop-fail n vm r va pa flags stop) (record {
          own = p.own;
          tree = p.tree;
          inside = λ x d u v w. absurd (omega (arith, w));
          outside = λ x u v. page_walk vm r va e p x u (omega (arith, l)) ∙ rw stop refl;
        }),
      )
      | inl ok ↦
          let (m, below, all, q) =
            map_loop-Mapped n vm1 r (va + 2 ^ 12) (pa + 2 ^ 12) flags p.own p.tree
              (omega (arith, l)) (omega (arith, h)) in
          let go = map_loop-go n vm r va pa flags ok (omega (arith, l)) (omega (arith, h)) in
          (
            suc m,
            omega (arith, below),
            rw go λ u. ap suc (all u),
            rw go (record {
              own = q.own;
              tree = q.tree;
              inside =
                  inside_step vm vm1 _ r va pa m flags (omega (arith, l)) q
                    (λ x u. page_walk vm r va e p x u (omega (arith, l)) ∙ rw ok refl);
              outside = λ x u v.
                  q.outside x u (ground (arith, v))
                  ∙ page_walk vm r va e p x u (omega (arith, l))
                  ∙ ground (arith, v);
            }),
          )
    ]
