-- ===== src/Vmm/Tests.antt =====
-- A mapping beside an area of one page.
use os_risc_v.Prelude.{◌≡◌, refl, ◌+◌, none, some, List, [], ◌∷◌}
use os_risc_v.Vmm.{Vma, new_vma, map_low, sys_mmap, mmap_vma}

abbrev one_area : List Vma
one_area = record new_vma { va = map_low; size = 0x1000 } ∷ []

mapped_behind :
    sys_mmap 2 0 100 3 2 none 0 one_area
    ≡ some (
      map_low + 0x1000,
      record new_vma { va = map_low; size = 0x1000 }
          ∷ mmap_vma (map_low + 0x1000) 0x1000 3 2 none 0
          ∷ [],
    )
unfolding sys_mmap
mapped_behind = refl
