-- ===== src/Vmm/Copy.antt =====
-- Copies to user memory, copy2user and userva2kernelva of os/kernel/vmm.c, with PV_OFFSET of
-- os/kernel/include/mm.h. The calls of `memmove` are a sequence; the pages of the kernel's own memory
-- lie one behind the other.
mod Splits
mod Tests
use os_risc_v.Prelude.{
  ℕ, zero, suc, ◌+◌, ◌-◌, ◌%◌, ◌^◌, Bool, true, false, Option, none, some, List, [], ◌∷◌, ◌==◌, ltb,
  if◌then◌else◌,
}
use os_risc_v.Vmm.{page_size, page_down}
use os_risc_v.Vmm.Table.{Vm, va2pa}

abbrev pub pv_offset : ℕ
pv_offset = 0xFFFFFFFF00000000

abbrev pub pa2kva : ℕ → ℕ
pa2kva pa = if pa == 0 then 0 else (pa + pv_offset) % 2 ^ 64

unfoldable pub userva2kernelva : Vm → ℕ → ℕ → ℕ
unfolding va2pa
userva2kernelva vm pgt va = pa2kva (va2pa vm pgt va)

-- A `memmove`
pub record Chunk : Type 0 where
  pub to : ℕ
  pub from : ℕ
  pub size : ℕ

-- The number `n` of bytes of one round
abbrev pub chunk_size : ℕ → ℕ → ℕ
chunk_size va len = let n = page_size - (va - page_down va) in if ltb len n then len else n

abbrev pub and_then : Chunk → Option (Bool × List Chunk) → Option (Bool × List Chunk)
and_then c none = none
and_then c (some (ok, cs)) = some (ok, c ∷ cs)

-- The value returned and the copies made; the outer option is the fuel.
unfoldable pub copy2user : ℕ → Vm → ℕ → ℕ → ℕ → ℕ → Option (Bool × List Chunk)
unfolding userva2kernelva page_down
copy2user zero vm pgt va from len = none
copy2user (suc f) vm pgt va from len =
    let kva = userva2kernelva vm pgt va in
    let n = chunk_size va len in
    let rest = copy2user f vm pgt ((va + n) % 2 ^ 64) ((from + n) % 2 ^ 64) (len - n) in
    if len == 0
    then some (true, [])
    else if kva == 0
    then some (false, [])
    else and_then (record { to = kva; from = from; size = n }) rest
