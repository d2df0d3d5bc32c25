-- ===== src/Vmm/Table.antt =====
-- Page tables, os/kernel/vmm.c. A pointer to a table is the number of the physical page at which it
-- lies, its frame: the kernel reads the page at that address plus PV_OFFSET. The words of all tables
-- are a function of frame and index, and their pages come from the pool of PageAlloc. An address has
-- 64 bits; the flags given to `mappages` are below 2^10, where the address begins in an entry.
pub mod Tree
pub mod Links
pub mod Maps
pub mod Loop
pub mod Translate
pub mod Enough
pub mod Unmaps
pub mod New
mod Tests
use os_risc_v.Prelude.{
  ℕ, zero, suc, ◌+◌, ◌-◌, ◌*◌, ◌/◌, ◌%◌, ◌^◌, ◌&&◌, Bool, true, false, Option, none, some, List, [],
  ◌∷◌, ◌==◌, ltb, leb, if◌then◌else◌,
}
use os_risc_v.PageAlloc.{Pool, alloc_pages, free_pages}

pub record Vm : Type 0 where
  pub words : ℕ → ℕ → ℕ
  pub pool : Pool

-- PM_START as a frame
abbrev pub first_frame : ℕ
first_frame = 0x80000

-- PTE_V and PTE_F
abbrev pub is_valid : ℕ → Bool
is_valid e = e % 2 == 1

abbrev pub is_fork : ℕ → Bool
is_fork e = e / 2 ^ 8 % 2 == 1

-- PA2PTE, and the frame of PTE2PA
abbrev pub pa2pte : ℕ → ℕ
pa2pte pa = pa / 2 ^ 12 * 2 ^ 10

abbrev pub entry_frame : ℕ → ℕ
entry_frame e = e / 2 ^ 10 % 2 ^ 52

-- `PA2PTE(pa) | PTE_V | pte_flags`
unfoldable pub leaf_entry : ℕ → ℕ → ℕ
leaf_entry pa flags = let e = pa2pte pa + flags in if is_valid e then e else e + 1

-- `prot2pte`: PTE_U, and PTE_R, PTE_W and PTE_X for the bits of the protection.
unfoldable pub prot2pte : ℕ → ℕ
prot2pte prot =
    16
    + (if prot % 2 == 1 then 2 else 0)
    + (if prot / 2 % 2 == 1 then 4 else 0)
    + (if prot / 4 % 2 == 1 then 8 else 0)

abbrev pub index0 : ℕ → ℕ
index0 va = va / 2 ^ 30 % 2 ^ 9

abbrev pub index1 : ℕ → ℕ
index1 va = va / 2 ^ 21 % 2 ^ 9

abbrev pub index2 : ℕ → ℕ
index2 va = va / 2 ^ 12 % 2 ^ 9

abbrev pub set_word : ℕ → ℕ → ℕ → (ℕ → ℕ → ℕ) → ℕ → ℕ → ℕ
set_word f i e words g j = if g == f && j == i then e else words g j

-- The pages from frame `g` on are cleared.
abbrev pub clear_pages : ℕ → ℕ → (ℕ → ℕ → ℕ) → ℕ → ℕ → ℕ
clear_pages g n words f i = if leb g f && ltb f (g + n) then 0 else words f i

abbrev pub give_frames : ℕ → Vm → Option ℕ × Pool → Option ℕ × Vm
give_frames n vm (none, pool) = (none, record vm { pool = pool })
give_frames n vm (some page, pool) = (
  some (first_frame + page),
  record { words = clear_pages (first_frame + page) n vm.words; pool = pool },
)

unfoldable pub vm_alloc_pages : ℕ → Vm → Option ℕ × Vm
unfolding alloc_pages
vm_alloc_pages n vm = give_frames n vm (alloc_pages n vm.pool)

-- `kva` is PV_OFFSET more than `pa`; the address is read for the memory from PM_START on.
unfoldable pub vm_free_pages : ℕ → ℕ → Vm → Vm
unfolding free_pages
vm_free_pages pa n vm =
    if pa % 2 ^ 12 == 0
    then record vm { pool = free_pages (pa / 2 ^ 12 - first_frame) n vm.pool }
    else vm

-- The table below the entry `i` of the table at `f`, which is made where there is none.
abbrev pub link : ℕ → ℕ → Option ℕ × Vm → Option ℕ × Vm
link f i (none, vm) = (none, vm)
link f i (some g, vm) =
    (some g, record vm { words = set_word f i (pa2pte (g * 2 ^ 12) + 1) vm.words })

unfoldable pub next_table : ℕ → ℕ → Vm → Option ℕ × Vm
unfolding vm_alloc_pages
next_table f i vm =
    if is_valid (vm.words f i)
    then (some (entry_frame (vm.words f i)), vm)
    else link f i (vm_alloc_pages 1 vm)

abbrev pub write_leaf : ℕ → ℕ → Option ℕ × Vm → Bool × Vm
write_leaf i e (none, vm) = (false, vm)
write_leaf i e (some f, vm) = (true, record vm { words = set_word f i e vm.words })

abbrev pub map_below : ℕ → ℕ → Option ℕ × Vm → Bool × Vm
map_below va e (none, vm) = (false, vm)
map_below va e (some f, vm) = write_leaf (index2 va) e (next_table f (index1 va) vm)

-- One round of `mappages`: the entry for one page.
unfoldable pub map_page : ℕ → ℕ → ℕ → Vm → Bool × Vm
unfolding next_table
map_page pg0 va e vm = map_below va e (next_table pg0 (index0 va) vm)

unfoldable pub map_loop : ℕ → ℕ → ℕ → ℕ → ℕ → Vm → Bool × Vm
unfolding map_page leaf_entry
map_loop pg0 va pa zero flags vm = (true, vm)
map_loop pg0 va pa (suc n) flags vm =
    let m = map_page pg0 va (leaf_entry pa flags) vm in
    let rest = map_loop pg0 ((va + 2 ^ 12) % 2 ^ 64) ((pa + 2 ^ 12) % 2 ^ 64) n flags m.1 in
    if m.0 then rest else (false, m.1)

unfoldable pub mappages : Option ℕ → ℕ → ℕ → ℕ → ℕ → Vm → Bool × Vm
unfolding map_loop
mappages none va pa n flags vm = (false, vm)
mappages (some pg0) va pa n flags vm =
    if n == 0
    then (false, vm)
    else if va % 2 ^ 12 == 0 && pa % 2 ^ 12 == 0
    then map_loop pg0 va pa n flags vm
    else (false, vm)

unfoldable pub unmap_page : ℕ → ℕ → Vm → Vm
unmap_page pg0 va vm =
    let e0 = vm.words pg0 (index0 va) in
    let pg1 = entry_frame e0 in
    let e1 = vm.words pg1 (index1 va) in
    let pg2 = entry_frame e1 in
    if is_valid e0
    then if is_valid e1 then record vm { words = set_word pg2 (index2 va) 0 vm.words } else vm
    else vm

unfoldable pub unmap_loop : ℕ → ℕ → ℕ → Vm → Vm
unfolding unmap_page
unmap_loop pg0 va zero vm = vm
unmap_loop pg0 va (suc n) vm = unmap_loop pg0 ((va + 2 ^ 12) % 2 ^ 64) n (unmap_page pg0 va vm)

unfoldable pub unmappages : Option ℕ → ℕ → ℕ → Vm → Bool × Vm
unfolding unmap_loop
unmappages none va n vm = (false, vm)
unmappages (some pg0) va n vm =
    if n == 0
    then (false, vm)
    else if va % 2 ^ 12 == 0
    then (true, unmap_loop pg0 va n vm)
    else (false, vm)

-- The walk of `va2pa`, `va2pte` and `isforkmem`: the entry of the last table, where all are valid.
unfoldable pub walk : (ℕ → ℕ → ℕ) → ℕ → ℕ → ℕ → ℕ → Option ℕ
walk words pg0 i j k =
    let e0 = words pg0 i in
    let e1 = words (entry_frame e0) j in
    let e2 = words (entry_frame e1) k in
    if is_valid e0
    then if is_valid e1 then if is_valid e2 then some e2 else none else none
    else none

abbrev pub walk_va : Vm → ℕ → ℕ → Option ℕ
walk_va vm pg0 va = walk vm.words pg0 (index0 va) (index1 va) (index2 va)

abbrev pub entry_pa : ℕ → Option ℕ → ℕ
entry_pa va none = 0
entry_pa va (some e) = entry_frame e * 2 ^ 12 + va % 2 ^ 12

unfoldable pub va2pa : Vm → ℕ → ℕ → ℕ
unfolding walk
va2pa vm pg0 va = entry_pa va (walk_va vm pg0 va)

abbrev pub entry_or_zero : Option ℕ → ℕ
entry_or_zero none = 0
entry_or_zero (some e) = e

unfoldable pub va2pte : Vm → ℕ → ℕ → ℕ
unfolding walk
va2pte vm pg0 va = entry_or_zero (walk_va vm pg0 va)

abbrev pub fork_bit : Option ℕ → Bool
fork_bit none = false
fork_bit (some e) = is_fork e

unfoldable pub isforkmem : Vm → ℕ → ℕ → Bool
unfolding walk
isforkmem vm pg0 va = fork_bit (walk_va vm pg0 va)

-- `copy_kpgt`; `k` is the page table of the kernel.
unfoldable pub copy_kpgt : (ℕ → ℕ) → ℕ → Vm → Vm
copy_kpgt k f vm = record vm {
  words = set_word f 510 (k 510) (set_word f 509 (k 509) (set_word f 508 (k 508) vm.words));
}

abbrev pub copy_into : (ℕ → ℕ) → Option ℕ × Vm → Option (ℕ × Vm)
copy_into k (none, vm) = none
copy_into k (some f, vm) = some (f, copy_kpgt k f vm)

-- The new table of a process, as `init_process`, `sys_clone` and `create_proc_by_elf` make it;
-- `none` is the write through the null pointer that they make without memory.
unfoldable pub new_table : (ℕ → ℕ) → Vm → Option (ℕ × Vm)
unfolding vm_alloc_pages copy_kpgt
new_table k vm = copy_into k (vm_alloc_pages 1 vm)

-- The pages below the table of the middle level at `f` go back to the pool.
unfoldable pub free_low : ℕ → ℕ → ℕ → Vm → Vm
unfolding vm_free_pages
free_low zero j f vm = vm
free_low (suc n) j f vm =
    let e = vm.words f j in
    free_low n (j + 1) f (if is_valid e then vm_free_pages (entry_frame e * 2 ^ 12) 1 vm else vm)

-- An entry without PTE_R, PTE_W and PTE_X
abbrev pub is_link : ℕ → Bool
is_link e = e / 2 % 8 == 0

unfoldable pub free_mid : ℕ → ℕ → ℕ → Vm → Vm
unfolding free_low
free_mid zero i f vm = vm
free_mid (suc n) i f vm =
    let e = vm.words f i in
    let g = entry_frame e in
    let below = if is_link e then free_low 512 0 g vm else vm in
    free_mid n (i + 1) f (if is_valid e then vm_free_pages (g * 2 ^ 12) 1 below else vm)

-- The tables of user memory go back to the pool, the root last.
unfoldable pub free_pagetable : Option ℕ → Vm → Vm
unfolding free_mid
free_pagetable none vm = vm
free_pagetable (some pg0) vm = vm_free_pages (pg0 * 2 ^ 12) 1 (free_mid 256 0 pg0 vm)
