-- ===== src/Vmm/Space.antt =====
-- Areas and page tables together: free_vma_mem of os/kernel/vmm.c, and sys_brk and sys_munmap of
-- os/kernel/procsyscall.c, and free_process_mem of os/kernel/process.c. There is memory for every
-- area.
mod Heap
mod Tests
use os_risc_v.Prelude.{
  ℕ, zero, suc, ◌+◌, ◌-◌, ◌*◌, ◌/◌, ◌%◌, ◌^◌, ◌&&◌, ◌||◌, Bool, true, false, not, Option, none,
  some, List, [], ◌∷◌, ◌==◌, ltb, leb, if◌then◌else◌,
}
use os_risc_v.Vmm.{Vma, new_vma, page_size, page_down, vma_end, find_vma, add_vma, rounds}
use os_risc_v.Vmm.Table.{Vm, va2pa, isforkmem, vm_free_pages, unmappages}

pub record Space : Type 0 where
  pub areas : List Vma
  pub vm : Vm
  pub pg_t : ℕ
  pub brk : ℕ
  pub minbrk : ℕ

-- The page of user memory at `va` loses its memory, which goes back to the pool unless it is shared
-- with a parent.
abbrev pub free_page : ℕ → ℕ → Vm → Vm
free_page pgt va vm =
    let pa = va2pa vm pgt va in
    let given = if isforkmem vm pgt va then vm else vm_free_pages pa 1 vm in
    if pa == 0 then vm else (unmappages (some pgt) va 1 given).1

-- The first page of a mapped file, which all its pages share.
abbrev pub free_file_page : ℕ → ℕ → Vm → Vm
free_file_page pgt va vm =
    let pa = va2pa vm pgt va in
    if pa == 0 then vm else (unmappages (some pgt) va 1 (vm_free_pages pa 1 vm)).1

unfoldable pub free_vma_loop : ℕ → ℕ → ℕ → Vm → Vm
unfolding va2pa isforkmem vm_free_pages unmappages
free_vma_loop pgt zero va vm = vm
free_vma_loop pgt (suc n) va vm = free_vma_loop pgt n (va + page_size) (free_page pgt va vm)

unfoldable pub free_vma_mem : ℕ → Vma → Vm → Vm
unfolding free_vma_loop rounds vma_end
free_vma_mem pgt v vm = elim v.file [
  | some f ↦ free_file_page pgt v.va vm
  | none ↦ free_vma_loop pgt (rounds v.va (vma_end v)) v.va vm
]

-- `del_list` of the area that begins at `a`.
unfoldable pub del_vma : ℕ → List Vma → List Vma
del_vma a [] = []
del_vma a (v ∷ vs) = if v.va == a then vs else v ∷ del_vma a vs

-- The area goes, with its memory.
unfoldable pub drop_vma : Vma → Space → Space
unfolding free_vma_mem del_vma
drop_vma v s = record s { areas = del_vma v.va s.areas; vm = free_vma_mem s.pg_t v s.vm }

unfoldable pub drop_all : List Vma → ℕ → Vm → Vm
unfolding free_vma_mem
drop_all [] pgt vm = vm
drop_all (v ∷ vs) pgt vm = drop_all vs pgt (free_vma_mem pgt v vm)

unfoldable pub free_process_mem : Space → Space
unfolding drop_all
free_process_mem s = record s { areas = []; vm = drop_all s.areas s.pg_t s.vm }

-- 0 or -1, as whether it succeeds.
unfoldable pub sys_munmap : ℕ → Space → Bool × Space
unfolding find_vma drop_vma
sys_munmap start s = elim (find_vma start s.areas) [
  | none ↦ (false, s)
  | some v ↦ (true, drop_vma v s)
]

-- The area of a page of the heap: VMA_BRK, PTE_R | PTE_W | PTE_U, PROT_READ | PROT_WRITE.
abbrev pub brk_vma : ℕ → Vma
brk_vma a = record new_vma { va = a; size = page_size; prot = 3; flag = 22; type = 4 }

-- The loop of `sys_brk` that makes areas of new pages.
unfoldable pub grow_heap : ℕ → ℕ → List Vma → List Vma
unfolding find_vma add_vma
grow_heap zero a vs = vs
grow_heap (suc n) a vs =
    grow_heap n (a + page_size)
      (elim (find_vma a vs) [ some v ↦ vs | none ↦ (add_vma (brk_vma a) vs).1 ])

-- The loop that takes areas away; `none` is the use of the null pointer where there is no area.
unfoldable pub shrink_heap : ℕ → ℕ → Space → Option Space
unfolding find_vma drop_vma
shrink_heap zero a s = some s
shrink_heap (suc n) a s = elim (find_vma a s.areas) [
  | none ↦ none
  | some v ↦ shrink_heap n (a + page_size) (drop_vma v s)
]

-- PAGEDOWN(a + PAGE_SIZE)
abbrev pub page_after : ℕ → ℕ
page_after a = page_down ((a + page_size) % 2 ^ 64)

-- The `int` that counts the pages of a growing heap.
abbrev pub pagen : ℕ → ℕ → ℕ
pagen brk addr = (page_after addr / page_size + (2 ^ 64 - 1) - page_down brk / page_size) % 2 ^ 32

abbrev pub broken : ℕ → Option Space → Option (ℕ × Space)
broken a none = none
broken a (some s) = some (a, record s { brk = a })

-- The new end of the heap, or -1, and the space; `none` is the null pointer.
unfoldable pub sys_brk : ℕ → Space → Option (ℕ × Space)
unfolding page_down rounds grow_heap shrink_heap
sys_brk addr s =
    let first = page_down s.brk + page_size in
    let grown : Space = record s {
      areas = grow_heap (rounds first (page_after addr)) first s.areas;
    } in
    let shrunk = shrink_heap (rounds (page_after addr) (page_after s.brk)) (page_after addr) s in
    if addr == 0
    then some (s.brk, s)
    else if ltb addr s.minbrk
    then some (2 ^ 64 - 1, s)
    else if addr == s.brk
    then some (addr, s)
    else if ltb s.brk addr
    then if pagen s.brk addr == 0 then broken addr (some s) else broken addr (some grown)
    else broken addr shrunk
