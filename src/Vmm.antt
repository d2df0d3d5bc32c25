-- ===== src/Vmm.antt =====
-- Virtual memory, os/kernel/vmm.c and vmm.h, and sys_mmap of os/kernel/procsyscall.c. This module has
-- the list of areas of a process: it is the sequence of its areas. Vmm/Table has the page tables,
-- Vmm/Space both together.
pub mod Areas
pub mod Gaps
mod Mmap
pub mod Table
pub mod Space
pub mod Fault
pub mod Copy
mod Tests
use os_risc_v.Prelude.{
  ℕ, zero, suc, ◌+◌, ◌-◌, ◌*◌, ◌/◌, ◌%◌, ◌^◌, ◌&&◌, ◌||◌, Bool, true, false, not, Option, none,
  some, List, [], ◌∷◌, ◌==◌, ltb, leb, if◌then◌else◌,
}

-- VMA_MMAP of `type_vma_t`
abbrev pub vma_mmap : ℕ
vma_mmap = 8

pub record Vma : Type 0 where
  pub va : ℕ
  pub size : ℕ
  pub prot : ℕ
  pub flag : ℕ
  pub type : ℕ
  pub vmoff : ℕ
  pub fsize : ℕ
  pub foff : ℕ
  pub file : Option ℕ

-- What `new_vma` leaves of an area, with the field `flag`, which it does not write, as 0.
abbrev pub new_vma : Vma
new_vma = record {
  va = 0;
  size = 0;
  prot = 0;
  flag = 0;
  type = 0;
  vmoff = 0;
  fsize = 0;
  foff = 0;
  file = none;
}

abbrev pub page_size : ℕ
page_size = 0x1000

abbrev pub map_low : ℕ
map_low = 0x2000000000

abbrev pub map_top : ℕ
map_top = 0x3000000000

-- PAGEDOWN and PAGEUP
unfoldable pub page_down : ℕ → ℕ
page_down a = a / page_size * page_size

unfoldable pub page_up : ℕ → ℕ
unfolding page_down
page_up a = page_down ((a + (page_size - 1)) % 2 ^ 64)

-- `vma->va + vma->size`
unfoldable pub vma_end : Vma → ℕ
vma_end v = (v.va + v.size) % 2 ^ 64

unfoldable pub find_vma : ℕ → List Vma → Option Vma
find_vma va [] = none
find_vma va (v ∷ vs) =
    let rest = find_vma va vs in
    if ltb va v.va then none else if leb v.va va && ltb va (vma_end v) then some v else rest

unfoldable pub add_vma : Vma → List Vma → Bool × List Vma
add_vma x [] = (true, x ∷ [])
add_vma x (v ∷ vs) =
    let rest = add_vma x vs in
    if ltb x.va v.va
    then (true, x ∷ v ∷ vs)
    else if x.va == v.va
    then (false, v ∷ vs)
    else (rest.0, v ∷ rest.1)

-- The rounds of `for(addr = a; addr < stop; addr += PAGE_SIZE)`.
unfoldable pub rounds : ℕ → ℕ → ℕ
rounds a stop = (stop - a + (page_size - 1)) / page_size

-- The first area that such a loop finds.
unfoldable pub scan : ℕ → ℕ → List Vma → Option Vma
unfolding find_vma
scan zero a vs = none
scan (suc n) a vs = elim (find_vma a vs) [ some v ↦ some v | none ↦ scan n (a + page_size) vs ]

-- `_auto_find_map_area` from the address `addr` on: the outer option is the fuel, the inner one the
-- null pointer, and the address is that of the new area.
unfoldable pub auto_find : ℕ → ℕ → ℕ → List Vma → Option (Option ℕ)
unfolding find_vma scan rounds vma_end
auto_find zero addr len vs = none
auto_find (suc f) addr len vs =
    let inner = scan (rounds (addr + page_size) ((addr + len) % 2 ^ 64)) (addr + page_size) vs in
    let found : Option (Option ℕ) = elim (find_vma addr vs) [
      | some v ↦ auto_find f (vma_end v) len vs
      | none ↦ elim inner [ some v ↦ auto_find f (vma_end v) len vs | none ↦ some (some addr) ]
    ] in
    if ltb addr map_top then found else some none

unfoldable pub find_map_area : ℕ → ℕ → ℕ → List Vma → Option (Option ℕ)
unfolding auto_find page_down
find_map_area f start len vs =
    let a = page_down start in
    let anywhere = auto_find f map_low len vs in
    let there : Option (Option ℕ) = elim (scan (rounds a ((a + len) % 2 ^ 64)) a vs) [
      | none ↦ some (some a)
      | some v ↦ anywhere
    ] in
    if leb map_low start && ltb start map_top then there else anywhere

-- `vma->file` and `vma->foff`, from what `vfs_fd2file` says of the descriptor where there is one.
abbrev pub mapped_file : Option (Option ℕ) → Option ℕ
mapped_file none = none
mapped_file (some file) = file

abbrev pub mapped_foff : Option (Option ℕ) → ℕ → ℕ
mapped_foff none off = 0
mapped_foff (some file) off = off

-- The area that `sys_mmap` enters. `prot` and `flag` are a `uint`.
abbrev pub mmap_vma : ℕ → ℕ → ℕ → ℕ → Option (Option ℕ) → ℕ → Vma
mmap_vma a len prot flags file off = record new_vma {
  va = a;
  size = len;
  prot = prot % 2 ^ 32;
  flag = flags % 2 ^ 32;
  type = vma_mmap;
  file = mapped_file file;
  foff = mapped_foff file off;
}

-- The return value and the areas; the option is the fuel. -1 is a `uint64`. There is memory for the
-- area.
unfoldable pub sys_mmap :
    ℕ → ℕ → ℕ → ℕ → ℕ → Option (Option ℕ) → ℕ → List Vma → Option (ℕ × List Vma)
unfolding page_up find_map_area add_vma
sys_mmap f start len prot flags file off vs =
    let n = page_up len in
    let mapped : Option (ℕ × List Vma) = elim (find_map_area f start n vs) [
      | none ↦ none
      | some none ↦ some (2 ^ 64 - 1, vs)
      | some (some a) ↦ some (a, (add_vma (mmap_vma a n prot flags file off) vs).1)
    ] in
    if prot == 0 then some (start, vs) else if n == 0 then some (2 ^ 64 - 1, vs) else mapped
