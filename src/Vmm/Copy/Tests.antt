-- ===== src/Vmm/Copy/Tests.antt =====
-- Bytes that lie on both sides of the end of a page.
use os_risc_v.Prelude.{
  ℕ, ◌≡◌, refl, ◌+◌, ◌*◌, ◌^◌, Bool, true, some, List, [], ◌∷◌, if◌then◌else◌, ◌==◌, ◌&&◌, arith,
}
use os_risc_v.PageAlloc.{initial}
use os_risc_v.Vmm.Table.{Vm}
use os_risc_v.Vmm.Copy.{Chunk, copy2user}
use os_risc_v.Vmm.Copy.Splits.{Copied, copy2user-Copied}

-- The page at 0x5000 of user memory lies in frame 0x80900, that at 0x6000 in frame 0x80880.
abbrev two_pages : Vm
two_pages = record {
  words = λ f i.
      if f == 0x80701 && i == 0
      then 0x80702 * 2 ^ 10 + 1
      else if f == 0x80702 && i == 0
      then 0x80703 * 2 ^ 10 + 1
      else if f == 0x80703 && i == 5
      then 0x80900 * 2 ^ 10 + 23
      else if f == 0x80703 && i == 6
      then 0x80880 * 2 ^ 10 + 23
      else 0;
  pool = initial 2000;
}

both_pages :
    copy2user 6 two_pages 0x80701 0x5FFE 100 5
    ≡ some (
      true,
      record { to = 0xFFFFFFFF80900FFE; from = 100; size = 2 }
          ∷ record { to = 0xFFFFFFFF80880000; from = 102; size = 3 }
          ∷ [],
    )
unfolding copy2user
both_pages = refl

copy2user-Copied_example :
    (ok : Bool) × (cs : List Chunk) × (m : ℕ) × (copy2user 6 two_pages 0x80701 0x5FFE 100 5
      ≡ some (ok, cs))
    × Copied two_pages 0x80701 0x5FFE 100 5 ok cs m
copy2user-Copied_example =
    copy2user-Copied 6 two_pages 0x80701 0x5FFE 100 5 (omega arith) (omega arith)
