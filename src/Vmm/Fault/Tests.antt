-- ===== src/Vmm/Fault/Tests.antt =====
-- A page of a program whose segment begins inside its first page, and the fault at it.
use os_risc_v.Prelude.{◌≤◌, ℕ, ◌≡◌, refl, ◌+◌, ◌<◌, some, arith, Option, [], ◌∷◌}
use os_risc_v.PageAlloc.{initial}
use os_risc_v.PageAlloc.Validity.{initial-IsValid}
use os_risc_v.Vmm.{find_vma, vma_end, page_down, Vma, new_vma, page_size}
use os_risc_v.Vmm.Table.{Vm, new_table, vm_alloc_pages, copy_kpgt, va2pa}
use os_risc_v.Vmm.Table.New.{Empty, only_root, new_table-IsNew}
use os_risc_v.Vmm.Space.{Space}
use os_risc_v.Vmm.Fault.{Window, prog_window, do_page_fault}
use os_risc_v.Vmm.Fault.Backed.{Backed, IsPlain, do_page_fault-Backed}
use os_risc_v.Vmm.Fault.Reads.{InPage, read_at, segment_at, prog_window-Reads}

abbrev text : Vma
text = record new_vma {
  va = 0x10000;
  size = 0x3000;
  prot = 5;
  type = 1;
  vmoff = 0x120;
  fsize = 0x1f00;
  foff = 0x120;
}

first_page : prog_window text 0x10000 ≡ some (record { seek = 0x120; dest = 0x120; size = 0xee0 })
unfolding prog_window
first_page = refl

last_page : prog_window text 0x12000 ≡ some (record { seek = 0x2000; dest = 0; size = 0x20 })
unfolding prog_window
last_page = refl

prog_window-Reads_example :
    InPage (prog_window text 0x12000)
    × ((k : ℕ)
        → k < page_size
        → read_at (prog_window text 0x12000) k ≡ segment_at text (0x12000 + k))
prog_window-Reads_example =
    prog_window-Reads text 0x12000 (omega arith) (omega arith) (omega arith) (omega arith)
      (omega arith)

abbrev memory : Vm
memory = record { words = λ f i. 0; pool = initial 2000 }

abbrev pgt : ℕ
pgt = 0x80000 + 2000

-- The memory with the table of a new process at `pgt`.
abbrev started : Vm
started = copy_kpgt (λ i. 0) pgt (vm_alloc_pages 1 memory).1

started-Empty : Empty pgt started
unfolding new_table initial
started-Empty = new_table-IsNew (λ i. 0) memory (initial-IsValid 2000 (omega arith))

abbrev space : Space
space = record { areas = text ∷ []; vm = started; pg_t = pgt; brk = 0x13000; minbrk = 0x13000 }

not_there : va2pa started pgt (page_down 0x12345) ≡ 0
unfolding va2pa vm_alloc_pages copy_kpgt page_down initial
not_there = refl

page_left : vm_alloc_pages 1 started ≡ (some (pgt + 1), (vm_alloc_pages 1 started).1)
unfolding vm_alloc_pages copy_kpgt initial
page_left = refl

space-IsPlain : IsPlain (find_vma 0x12345 space.areas)
unfolding find_vma vma_end
space-IsPlain = (refl, refl)

enough_left : 3 ≤ space.vm.pool.page_num
unfolding copy_kpgt vm_alloc_pages initial
enough_left = omega arith

do_page_fault-Backed_example :
    (w : Option Window) × (t : Space) × (do_page_fault 0x12345 space ≡ some (11, w, t))
    × Backed space (page_down 0x12345) (pgt + 1) t
do_page_fault-Backed_example =
    do_page_fault-Backed 0x12345 (pgt + 1) space (only_root pgt) (vm_alloc_pages 1 started).1
      started-Empty.tree (omega arith) not_there enough_left page_left space-IsPlain
