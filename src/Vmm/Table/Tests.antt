-- ===== src/Vmm/Table/Tests.antt =====
-- Two pages mapped in a new page table.
use os_risc_v.Prelude.{ℕ, ◌≡◌, ◌≤◌, ◌<◌, refl, ◌^◌, ◌+◌, true, some, arith}
use os_risc_v.PageAlloc.{initial}
use os_risc_v.PageAlloc.Validity.{initial-IsValid}
use os_risc_v.Vmm.Table.{Vm, new_table, vm_alloc_pages, copy_kpgt, mappages, unmappages, walk_va}
use os_risc_v.Vmm.Table.Tree.{Owner, IsTree}
use os_risc_v.Vmm.Table.New.{Empty, only_root, new_table-IsNew}
use os_risc_v.Vmm.Table.Translate.{Translated, mappages-Translated}
use os_risc_v.Vmm.Table.Unmaps.{unmappages-mappages}

abbrev memory : Vm
memory = record { words = λ f i. 0; pool = initial 2000 }

abbrev kernel_table : ℕ → ℕ
kernel_table i = 0

abbrev pgt : ℕ
pgt = 0x80000 + 2000

-- The memory with the table of a new process at `pgt`.
abbrev started : Vm
started = copy_kpgt kernel_table pgt (vm_alloc_pages 1 memory).1

started-Empty : Empty pgt started
unfolding new_table initial
started-Empty = new_table-IsNew kernel_table memory (initial-IsValid 2000 (omega arith))

mappages-Translated_example :
    (m : ℕ) × (m ≤ 2)
    × ((mappages (some pgt) 0x5000 0x80400000 2 22 started).0 ≡ true → m ≡ 2)
    × Translated started pgt 0x5000 0x80400000 m
        (mappages (some pgt) 0x5000 0x80400000 2 22 started).1
mappages-Translated_example =
    mappages-Translated started pgt 0x5000 0x80400000 2 22 (only_root pgt) started-Empty.tree
      (omega arith) refl refl (omega arith) (omega arith) (omega arith)

unmappages-mappages_example :
    let back =
      unmappages (some pgt) 0x5000 2 (mappages (some pgt) 0x5000 0x80400000 2 22 started).1 in
    (back.0 ≡ true)
    × ((own' : ℕ → Owner) × IsTree back.1 pgt own')
    × ((x : ℕ) → x < 2 ^ 38 → walk_va back.1 pgt x ≡ walk_va started pgt x)
unmappages-mappages_example =
    unmappages-mappages started pgt 0x5000 0x80400000 2 22 (only_root pgt) started-Empty.tree
      (omega arith) refl refl (omega arith) (omega arith)
      (λ x p q. started-Empty.leads x (omega (arith, q)))
