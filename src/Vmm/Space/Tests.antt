-- ===== src/Vmm/Space/Tests.antt =====
-- A heap that grows by two pages, and an area that goes.
use os_risc_v.Prelude.{[], ◌∷◌}
use os_risc_v.PageAlloc.{initial}
use os_risc_v.Vmm.{Vma, new_vma}
use os_risc_v.Vmm.Space.{Space}

abbrev program : Vma
program = record new_vma { va = 0x10000; size = 0x3000; prot = 7; type = 1 }

abbrev space : Space
space = record {
  areas = program ∷ [];
  vm = record { words = λ f i. 0; pool = initial 2000 };
  pg_t = 0x80700;
  brk = 0x13000;
  minbrk = 0x13000;
}
