-- ===== src/Vmm/Table/Tree.antt =====
-- Page tables that form a tree below their root, as far as user memory goes, on pages in use.
use os_risc_v.Prelude.{
  ℕ, ◌+◌, ◌-◌, ◌^◌, ◌≤◌, ◌<◌, ◌≡◌, refl, sym, ap, ◌∙◌, Bool, true, false, Option, none, some, ◌==◌,
  if◌then◌else◌, arith,
}
use os_risc_v.PageAlloc.{Pool, alloc_pages, is_used}
use os_risc_v.PageAlloc.Validity.{IsValid}
use os_risc_v.PageAlloc.Cut.{Taken}
use os_risc_v.PageAlloc.Take.{alloc_pages-Taken, alloc_pages-none_iff}
use os_risc_v.Vmm.Table.{Vm, first_frame, is_valid, entry_frame, give_frames, vm_alloc_pages}

-- The place of a frame in the tree.
pub data Owner : Type 0 where
  nobody root : Owner
  mid : ℕ → Owner
  low : ℕ → ℕ → Owner

abbrev pub is_owned : Owner → Bool
is_owned nobody = false
is_owned _ = true

-- The entries below index 256 of the root are those of user memory; `own` says what each frame is.
pub record IsTree (vm : Vm) (r : ℕ) (own : ℕ → Owner) : Type 0 where
  pub pool_valid : IsValid vm.pool
  pub at_root : own r ≡ root
  pub to_mid :
      (i : ℕ) → i < 256 → is_valid (vm.words r i) ≡ true → own (entry_frame (vm.words r i)) ≡ mid i
  pub to_low :
      (f i j : ℕ)
      → own f ≡ mid i
      → is_valid (vm.words f j) ≡ true
      → own (entry_frame (vm.words f j)) ≡ low i j
  pub in_use :
      (f : ℕ)
      → is_owned (own f) ≡ true
      → (first_frame ≤ f) × (is_used (vm.pool.pages_map (f - first_frame)).flag ≡ true)

-- A new frame for the tree, which belonged to nobody, and the pool after it has been taken.
pub record Fresh (vm : Vm) (own : ℕ → Owner) (g : ℕ) (pool : Pool) : Type 0 where
  pub pool_valid : IsValid pool
  pub from_first : first_frame ≤ g
  pub in_memory : g < 2 ^ 50
  pub unowned : own g ≡ nobody
  pub now_used : is_used (pool.pages_map (g - first_frame)).flag ≡ true
  pub kept :
      (p : ℕ) → is_used (vm.pool.pages_map p).flag ≡ true → is_used (pool.pages_map p).flag ≡ true

pub Taken-Fresh :
    (vm : Vm) (r page : ℕ) (pool : Pool) (own : ℕ → Owner)
    → IsTree vm r own
    → Taken 1 vm.pool page pool
    → Fresh vm own (first_frame + page) pool
Taken-Fresh vm r page pool own t k = record {
  pool_valid = k.valid;
  from_first = omega arith;
  in_memory =
      omega (arith, k.valid.used_in page (ground (arith, (k.now_used page (ground arith)).0)));
  unowned = ground (arith, t.in_use (first_frame + page), k.was_free page);
  now_used = ground (arith, k.now_used page);
  kept = λ p u. ground (arith, k.now_used p, k.others_kept p);
}

abbrev pub Made : Vm → (ℕ → Owner) → Option ℕ × Vm → Type 0
Made vm own (none, vm') = vm' ≡ vm
Made vm own (some g, vm') =
    Fresh vm own g vm'.pool × ((f i : ℕ) → vm'.words f i ≡ (if f == g then 0 else vm.words f i))

pub vm_alloc_pages-Made :
    (vm : Vm) (r : ℕ) (own : ℕ → Owner) → IsTree vm r own → Made vm own (vm_alloc_pages 1 vm)
unfolding vm_alloc_pages
vm_alloc_pages-Made vm r own t = go (alloc_pages 1 vm.pool) refl
  where
    go : (a : Option ℕ × Pool) → alloc_pages 1 vm.pool ≡ a → Made vm own (give_frames 1 vm a)
    go (none, pool) e =
        let same = (alloc_pages-none_iff 1 vm.pool t.pool_valid).1 (ap (λ x. x.0) e) in
        ap (λ p. record vm { pool = p }) (sym (ap (λ x. x.1) e) ∙ same)
    go (some page, pool) e = (
      Taken-Fresh vm r page pool own t (alloc_pages-Taken 1 vm.pool pool page t.pool_valid e),
      λ f i. ground arith,
    )
