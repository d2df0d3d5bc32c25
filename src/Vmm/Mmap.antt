-- ===== src/Vmm/Mmap.antt =====
-- The area that `sys_mmap` enters in a gap.
use os_risc_v.Prelude.{
  ℕ, ◌+◌, ◌%◌, ◌≤◌, ◌<◌, ◌≡◌, Option, some, List, ltb, leb, ◌&&◌, if◌then◌else◌,
}
use os_risc_v.Vmm.{Vma, find_vma, page_size, map_low, map_top, mmap_vma}
use os_risc_v.Vmm.Areas.{All, Rises, Apart}

-- What `sys_mmap` answers: nothing is mapped, or there is one area more, where none was.
pub record Mapped (n prot flags off : ℕ) (file : Option (Option ℕ)) (vs : List Vma) (a : ℕ)
    (ws : List Vma) : Type 0 where
  pub from_low : map_low ≤ a
  pub below_top : a < map_top
  pub whole : a % page_size ≡ 0
  pub clear : All (Apart a (a + n)) vs
  pub rises : Rises 0 ws
  pub finds :
      (x : ℕ)
      → find_vma x ws ≡ (
          if leb a x && ltb x (a + n)
          then some (mmap_vma a n prot flags file off)
          else find_vma x vs)
