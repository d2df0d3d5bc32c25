-- ===== src/Vmm/Table/New.antt =====
-- The page table of a new process.
use os_risc_v.Prelude.{ℕ, ◌+◌, ◌^◌, ◌<◌, ◌≡◌, refl, Option, none, some, ◌==◌, if◌then◌else◌, arith}
use os_risc_v.PageAlloc.{Pool, alloc_pages}
use os_risc_v.PageAlloc.Validity.{IsValid}
use os_risc_v.PageAlloc.Take.{alloc_pages-Taken}
use os_risc_v.PageAlloc.Cut.{Taken}
use os_risc_v.Vmm.Table.{
  Vm, first_frame, walk, walk_va, give_frames, copy_into, copy_kpgt, new_table, vm_alloc_pages,
}
use os_risc_v.Vmm.Table.Tree.{Owner, nobody, root, IsTree}

abbrev pub only_root : ℕ → ℕ → Owner
only_root r f = if f == r then root else nobody

-- The new address space leads nowhere.
pub record Empty (r : ℕ) (vm : Vm) : Type 0 where
  pub tree : IsTree vm r (only_root r)
  pub leads : (x : ℕ) → x < 2 ^ 38 → walk_va vm r x ≡ none

abbrev pub IsNew : Vm → Option (ℕ × Vm) → Type 0
IsNew vm none = (vm_alloc_pages 1 vm).0 ≡ none
IsNew vm (some (r, vm')) = Empty r vm'

Taken-Empty :
    (k : ℕ → ℕ) (vm : Vm) (page : ℕ) (pool : Pool)
    → Taken 1 vm.pool page pool
    → Empty
        (first_frame + page)
        (copy_kpgt k (first_frame + page) (give_frames 1 vm (some page, pool)).1)
unfolding copy_kpgt walk
Taken-Empty k vm page pool t = record {
  tree = record {
    pool_valid = t.valid;
    at_root = ground arith;
    to_mid = λ i l v. ground (arith, l, v);
    to_low = λ f i j o v. ground (arith, o);
    in_use = λ f o. ground (arith, o, t.now_used page);
  };
  leads = λ x l. ground (arith, l);
}

-- The page table of a new process, from a valid pool of pages, is a tree that has the root alone,
-- and leads from no address of user memory anywhere. Without memory there is no table.
pub new_table-IsNew : (k : ℕ → ℕ) (vm : Vm) → IsValid vm.pool → IsNew vm (new_table k vm)
unfolding new_table
new_table-IsNew k vm v = go (alloc_pages 1 vm.pool) refl
  where
    go :
        (a : Option ℕ × Pool)
        → alloc_pages 1 vm.pool ≡ a
        → IsNew vm (copy_into k (give_frames 1 vm a))
    go (none, pool) e = rw e refl
    go (some page, pool) e = Taken-Empty k vm page pool (alloc_pages-Taken 1 vm.pool pool page v e)
