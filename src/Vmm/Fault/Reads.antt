-- ===== src/Vmm/Fault/Reads.antt =====
-- What a fault reads of the file of a program.
use os_risc_v.Prelude.{
  ℕ, ◌+◌, ◌-◌, ◌^◌, ◌≤◌, ◌<◌, ◌≡◌, ◌&&◌, Option, none, some, ltb, leb, if◌then◌else◌, arith,
}
use os_risc_v.Vmm.{Vma, page_size}
use os_risc_v.Vmm.Fault.{Window, prog_window}

-- The offset in the file of what a window reads to the byte `k` of the page.
abbrev pub read_at : Option Window → ℕ → Option ℕ
read_at none k = none
read_at (some w) k =
    if leb w.dest k && ltb k (w.dest + w.size) then some (w.seek + (k - w.dest)) else none

-- The offset in the file of the byte of the segment at the address `x`.
abbrev pub segment_at : Vma → ℕ → Option ℕ
segment_at v x =
    if leb (v.va + v.vmoff) x && ltb x (v.va + v.vmoff + v.fsize)
    then some (v.foff + (x - (v.va + v.vmoff)))
    else none

abbrev pub InPage : Option Window → Type 0
InPage none = 0 ≤ page_size
InPage (some w) = w.dest + w.size ≤ page_size

-- A fault on a page of a segment reads from the file, for every byte of the page, the byte that the
-- segment has at this address, and nothing for the bytes outside the segment's part of the file; it
-- writes to the page alone.
pub prog_window-Reads :
    (v : Vma) (badpage : ℕ)
    → v.va + v.vmoff + v.fsize < 2 ^ 63
    → v.foff + v.fsize < 2 ^ 63
    → badpage < 2 ^ 62
    → v.va ≤ badpage
    → v.vmoff ≤ page_size
    → InPage (prog_window v badpage)
      × ((k : ℕ) → k < page_size → read_at (prog_window v badpage) k ≡ segment_at v (badpage + k))
unfolding prog_window
prog_window-Reads v b p q l f o =
    (ground (arith, p, q, l, f, o), λ k h. ground (arith, p, q, l, f, o, h))
