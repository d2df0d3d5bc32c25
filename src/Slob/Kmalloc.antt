-- ===== src/Slob/Kmalloc.antt =====
-- kmalloc and kfree, os/kernel/kmalloc.c, over the small allocator. Addresses are in units of 16 bytes,
-- so a page begins at a multiple of 256. The results of `slob_get_pages` are arguments; `returned`
-- lists the calls of `slob_free_pages`.
pub mod Roundtrip
use os_risc_v.Prelude.{
  ℕ, zero, suc, ◌+◌, ◌-◌, ◌*◌, ◌/◌, ◌%◌, ◌^◌, Bool, true, false, Option, none, some, List, [], ◌∷◌,
  ◌++◌, ◌==◌, ltb, if◌then◌else◌,
}
use os_risc_v.Slob.{
  Block, get_unit_n, page_units, small_alloc, small_free, Result, found, out_of_pages, stuck,
  starved,
}

-- big_block, with its own address
pub record BigBlock : Type 0 where
  pub node : ℕ
  pub page_n : ℕ
  pub pages : ℕ

-- `header` is the field unit_n in front of the memory that is given out.
pub record Kmem : Type 0 where
  pub ring : List Block
  pub header : ℕ → ℕ
  pub big_blocks : List BigBlock
  pub returned : List (ℕ × ℕ)

-- A run that does not return is `hangs`, or wants more pages.
pub data Reply : Type 0 where
  gives : Option ℕ → Kmem → Reply
  hangs : Reply

abbrev pub align8 : ℕ → ℕ
align8 size = if size % 8 == 0 then size else (size / 8 + 1) * 8 % 2 ^ 64

abbrev pub get_page_n : ℕ → ℕ
get_page_n size = if size % 4096 == 0 then size / 4096 else size / 4096 + 1

abbrev pub set_header : ℕ → ℕ → (ℕ → ℕ) → ℕ → ℕ
set_header a n header b = if b == a then n else header b

-- The part of `kmalloc` behind its call of `small_alloc` for `n` units.
abbrev pub hand_out : ℕ → Kmem → Result → Reply
hand_out n k (found a r) =
    gives (some (a + 1)) (record k { ring = r; header = set_header a n k.header })
hand_out n k (out_of_pages r) = gives none (record k { ring = r })
hand_out n k stuck = hangs
hand_out n k starved = hangs

-- A list of free blocks back from `small_free`.
abbrev pub with_ring : Option ℕ → Kmem → Option (List Block) → Reply
with_ring o k none = hangs
with_ring o k (some r) = gives o (record k { ring = r })

-- The units of a big_block, which has 24 bytes.
abbrev pub big_units : ℕ
big_units = get_unit_n 24

abbrev pub hand_out_pages : ℕ → Option ℕ → Kmem → Result → Reply
hand_out_pages n none k (found a r) =
    with_ring none (record k { header = set_header a big_units k.header })
      (small_free (record { addr = a; unit_n = big_units }) r)
hand_out_pages n (some p) k (found a r) = gives (some p) (record k {
  ring = r;
  header = set_header a big_units k.header;
  big_blocks = record { node = a; page_n = n; pages = p } ∷ k.big_blocks;
})
hand_out_pages n page k (out_of_pages r) = gives none (record k { ring = r })
hand_out_pages n page k stuck = hangs
hand_out_pages n page k starved = hangs

-- `small_pages` are for the pages that `small_alloc` asks for, `page` for those of the block itself.
unfoldable pub kmalloc : ℕ → List (Option ℕ) → Option ℕ → Kmem → Reply
kmalloc size small_pages page k =
    let s = align8 size in
    if ltb s (4096 - 16)
    then hand_out (get_unit_n (s + 16)) k (small_alloc (get_unit_n (s + 16)) small_pages k.ring)
    else hand_out_pages (get_page_n s) page k (small_alloc big_units small_pages k.ring)

-- The block with the pages at the address, and the others.
unfoldable pub take_big : ℕ → List BigBlock → Option (BigBlock × List BigBlock)
take_big a [] = none
take_big a (b ∷ bs) =
    let rest = take_big a bs in
    if b.pages == a
    then some (b, bs)
    else elim rest [ none ↦ none | some (c, cs) ↦ some (c, b ∷ cs) ]

abbrev pub free_small : ℕ → Kmem → Reply
free_small a k =
    with_ring none k (small_free (record { addr = a - 1; unit_n = k.header (a - 1) }) k.ring)

abbrev pub free_big : ℕ → Kmem → Option (BigBlock × List BigBlock) → Reply
free_big a k none = free_small a k
free_big a k (some (b, bs)) =
    with_ring none (record k { big_blocks = bs; returned = (a, b.page_n) ∷ k.returned })
      (small_free (record { addr = b.node; unit_n = big_units }) k.ring)

unfoldable pub kfree : Option ℕ → Kmem → Reply
unfolding take_big
kfree none k = gives none k
kfree (some a) k =
    if a % page_units == 0 then free_big a k (take_big a k.big_blocks) else free_small a k

abbrev pub size_of : ℕ → Kmem → Option (BigBlock × List BigBlock) → ℕ
size_of a k none = k.header (a - 1) * 16
size_of a k (some (b, bs)) = b.page_n * 4096

unfoldable pub ksize : Option ℕ → Kmem → ℕ
unfolding take_big
ksize none k = 0
ksize (some a) k =
    if a % page_units == 0 then size_of a k (take_big a k.big_blocks) else size_of a k none
