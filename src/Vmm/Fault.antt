-- ===== src/Vmm/Fault.antt =====
-- Faults on user memory, do_exec_fault and do_page_fault of os/kernel/vmm.c. What a fault reads of
-- the program's file is a window; the bytes themselves, and what the signal comes to, are not in
-- this part.
mod Reads
mod Backed
mod Tests
use os_risc_v.Prelude.{
  ℕ, ◌+◌, ◌-◌, ◌*◌, ◌/◌, ◌%◌, ◌^◌, ◌&&◌, Bool, true, false, Option, none, some, List, [], ◌∷◌, ◌==◌,
  ltb, leb, if◌then◌else◌,
}
use os_risc_v.Vmm.{Vma, new_vma, page_size, page_down, find_vma, add_vma}
use os_risc_v.Vmm.Table.{Vm, va2pa, isforkmem, prot2pte, vm_alloc_pages, vm_free_pages, mappages}
use os_risc_v.Vmm.Space.{Space}

-- `vfs_lseek` to `seek`, and `vfs_read` of `size` bytes to `dest` in the page
pub record Window : Type 0 where
  pub seek : ℕ
  pub dest : ℕ
  pub size : ℕ

-- The difference of two `uint64`.
abbrev pub sub64 : ℕ → ℕ → ℕ
sub64 a b = (a + 2 ^ 64 - b) % 2 ^ 64

abbrev pub smaller : ℕ → ℕ → ℕ
smaller a b = if ltb a b then a else b

-- What is read for the page `badpage` of the segment `v` of a program.
unfoldable pub prog_window : Vma → ℕ → Option Window
prog_window v badpage =
    let file_begin_va = (v.va + v.vmoff) % 2 ^ 64 in
    let before = sub64 file_begin_va badpage in
    let file_begin = sub64 ((v.foff + badpage) % 2 ^ 64) file_begin_va in
    let passed = sub64 file_begin v.foff in
    if leb badpage file_begin_va
    then some
        (record { seek = v.foff; dest = before; size = smaller v.fsize (sub64 page_size before) })
    else if ltb passed v.fsize
    then some
        (record { seek = file_begin; dest = 0; size = smaller (sub64 v.fsize passed) page_size })
    else none

-- VMA_PROG and VMA_CLONE
abbrev pub is_prog : Vma → Bool
is_prog v = v.type % 2 == 1

abbrev pub is_clone : Vma → Bool
is_clone v = v.type / 16 % 2 == 1

abbrev pub filled : Vma → ℕ → Space → Option ℕ × Vm → Option (Option Window × Space)
filled v badpage s (none, vm) = none
filled v badpage s (some f, vm) = some (
  prog_window v badpage,
  record s { vm = (mappages (some s.pg_t) badpage (f * 2 ^ 12) 1 (prot2pte v.prot) vm).1 },
)

-- `none` is the endless loop for an address outside the program, or the page that is not there.
unfoldable pub do_exec_fault : ℕ → Space → Option (Option Window × Space)
unfolding page_down find_vma vm_alloc_pages mappages prog_window prot2pte
do_exec_fault badaddr s = elim (find_vma badaddr s.areas) [
  | none ↦ none
  | some v ↦ if is_prog v then filled v (page_down badaddr) s (vm_alloc_pages 1 s.vm) else none
]

-- SIGBUS where there is memory at the address, and else SIGSEGV.
abbrev pub fault_signal : ℕ → ℕ
fault_signal pa = if pa == 0 then 11 else 7

-- The physical address of the page `mem`, which is new where `pa` is 0.
abbrev pub new_memory : Option ℕ × Vm → Option ℕ × Vm
new_memory (none, vm) = (none, vm)
new_memory (some f, vm) = (some (f * 2 ^ 12), vm)

unfoldable pub page_memory : ℕ → Vm → Option ℕ × Vm
unfolding vm_alloc_pages
page_memory pa vm = if pa == 0 then new_memory (vm_alloc_pages 1 vm) else (some pa, vm)

-- `prot |= PROT_READ | PROT_WRITE`, in the area that begins at `a`
abbrev pub writable : ℕ → ℕ
writable prot = prot / 4 * 4 + 3

unfoldable pub make_writable : ℕ → List Vma → List Vma
make_writable a [] = []
make_writable a (v ∷ vs) =
    let rest = make_writable a vs in
    if v.va == a then record v { prot = writable v.prot } ∷ vs else v ∷ rest

abbrev pub map_one : ℕ → ℕ → ℕ → ℕ → Vm → Vm
map_one pgt va pa prot vm = (mappages (some pgt) va pa 1 (prot2pte prot) vm).1

-- The area of a page of the stack.
abbrev pub stack_vma : ℕ → Vma
stack_vma a = record new_vma { va = a; size = page_size; prot = 3; flag = 6; type = 2 }

-- The page of a mapped file: all of them share the memory of the first.
unfoldable pub file_fault : Vma → ℕ → ℕ → Space → Vm → Space
unfolding va2pa vm_free_pages mappages prot2pte
file_fault v badpage mem s vm =
    let first_pa = va2pa vm s.pg_t v.va in
    let first_too = map_one s.pg_t v.va mem v.prot vm in
    if first_pa == 0
    then record s { vm = map_one s.pg_t badpage mem v.prot first_too }
    else record s { vm = map_one s.pg_t badpage first_pa v.prot (vm_free_pages mem 1 vm) }

-- A fault in the area `v`, with the page at `mem`.
unfoldable pub area_fault : Vma → ℕ → ℕ → ℕ → Space → Vm → Option Window × Space
unfolding isforkmem prog_window make_writable file_fault mappages prot2pte
area_fault v badpage pa mem s vm =
    let with_prot = λ (prot : ℕ). map_one s.pg_t badpage mem prot vm in
    let opened : Space = record s {
      areas = make_writable v.va s.areas;
      vm = with_prot (writable v.prot);
    } in
    let as_is : Space = record s { vm = with_prot v.prot } in
    let other : Option Window × Space = elim v.file [
      | some f ↦ (none, file_fault v badpage mem s vm)
      | none ↦ (none, as_is)
    ] in
    if is_clone v && isforkmem vm s.pg_t badpage
    then (none, opened)
    else if is_prog v
    then (prog_window v badpage, if pa == 0 then as_is else opened)
    else other

abbrev pub faulted : ℕ → ℕ → Option Vma → Space → Option ℕ × Vm → Option (ℕ × Option Window × Space)
faulted badpage pa area s (none, vm) = none
faulted badpage pa none s (some mem, vm) = some (
  fault_signal pa,
  none,
  record s {
    areas = (add_vma (stack_vma badpage) s.areas).1;
    vm = map_one s.pg_t badpage mem 3 vm;
  },
)
faulted badpage pa (some v) s (some mem, vm) =
    let (w, t) = area_fault v badpage pa mem s vm in some (fault_signal pa, w, t)

-- The signal that is sent, the window and the space. `none` is a fault for which there is no page.
unfoldable pub do_page_fault : ℕ → Space → Option (ℕ × Option Window × Space)
unfolding page_down va2pa find_vma page_memory area_fault add_vma mappages prot2pte
do_page_fault badaddr s =
    let badpage = page_down badaddr in
    let pa = va2pa s.vm s.pg_t badpage in
    faulted badpage pa (find_vma badaddr s.areas) s (page_memory pa s.vm)
