-- ===== src/Slob/Kmalloc/Roundtrip.antt =====
-- Memory that kmalloc has given out and that goes back to kfree, os/kernel/kmalloc.c.
use os_risc_v.Prelude.{
  ℕ, ◌+◌, ◌%◌, ◌≤◌, ◌≡◌, refl, ◌∙◌, ap, true, false, false, none, some, List, [], ◌∷◌, ◌++◌, ◌==◌,
  ltb, Option, arith,
}
use os_risc_v.Slob.{Block, page_units, small_alloc, small_free, found}
use os_risc_v.Slob.Search.{Avoids}
use os_risc_v.Slob.Cover.{within, covers, small_free-covers}
use os_risc_v.Slob.Sentinel.{has_sentinel, Clear, Apart-sentinel}
use os_risc_v.Slob.Kmalloc.{
  BigBlock, Kmem, gives, align8, get_page_n, set_header, with_ring, big_units, kmalloc, take_big,
  free_big, kfree, hand_out_pages,
}

ltb-false : (a b : ℕ) → b ≤ a → ltb a b ≡ false
ltb-false a b l = ground (arith, l)

kmalloc-pages :
    (size : ℕ) (small_pages : List (Option ℕ)) (page : Option ℕ) (k : Kmem)
    → 4080 ≤ align8 size
    → kmalloc size small_pages page k
      ≡ hand_out_pages (get_page_n (align8 size)) page k (small_alloc big_units small_pages k.ring)
unfolding kmalloc
kmalloc-pages size small_pages page k l =
    let z : ltb (align8 size) 4080 ≡ false = ltb-false (align8 size) 4080 l in rw z refl

-- No block of the list has its pages at `p`.
abbrev pub Elsewhere : ℕ → List BigBlock → Type 0
Elsewhere p [] = Unit
Elsewhere p (b ∷ bs) = ((b.pages == p) ≡ false) × Elsewhere p bs

take_big-found :
    (p : ℕ) (xs : List BigBlock) (b : BigBlock) (bs : List BigBlock)
    → b.pages ≡ p
    → Elsewhere p xs
    → take_big p (xs ++ b ∷ bs) ≡ some (b, xs ++ bs)
unfolding take_big
take_big-found p [] b bs f o = let y : (b.pages == p) ≡ true = ground (arith, f) in rw y refl
take_big-found p (x ∷ xs) b bs f o = rw (o.0, take_big-found p xs b bs f o.1) refl

kfree-found :
    (p : ℕ) (k : Kmem) (xs : List BigBlock) (b : BigBlock) (bs : List BigBlock)
    → k.big_blocks ≡ xs ++ b ∷ bs
    → b.pages ≡ p
    → Elsewhere p xs
    → p % page_units ≡ 0
    → kfree (some p) k
      ≡ with_ring none
          (record k { big_blocks = xs ++ bs; returned = (p, b.page_n) ∷ k.returned })
          (small_free (record { addr = b.node; unit_n = big_units }) k.ring)
unfolding kfree
kfree-found p k xs b bs e f o m =
    let z : (p % page_units == 0) ≡ true = ground (arith, m) in
    rw z (ap (free_big p k) (ap (take_big p) e ∙ take_big-found p xs b bs f o))

-- The record of a block of pages.
abbrev pub big_block : ℕ → ℕ → ℕ → BigBlock
big_block a size p = record { node = a; page_n = get_page_n (align8 size); pages = p }

-- `kmalloc` of at least 4080 bytes, with memory for the record and the pages at the start of a page,
-- gives the pages out and puts the record in front of the list of big blocks. Later, when any records
-- `xs` with other addresses have come before it, and the ring has the sentinel, no block at the
-- address of the record, and the record does not touch the sentinel: `kfree` takes this record off
-- the list and no other, gives its pages back, and the units of the record to the ring.
pub kfree-kmalloc :
    (s size p a : ℕ) (small_pages : List (Option ℕ)) (k : Kmem) (r : List Block)
    (xs : List BigBlock) (w : Kmem) (c : Block) (q : List Block)
    → 4080 ≤ align8 size
    → p % page_units ≡ 0
    → small_alloc big_units small_pages k.ring ≡ found a r
    → w.big_blocks ≡ xs ++ big_block a size p ∷ k.big_blocks
    → Elsewhere p xs
    → w.ring ≡ c ∷ q
    → has_sentinel s (c ∷ q) ≡ true
    → Avoids a (c ∷ q)
    → Clear s (record { addr = a; unit_n = big_units })
    → (u : Kmem) × (kmalloc size small_pages (some p) k ≡ gives (some p) u)
      × (u.big_blocks ≡ big_block a size p ∷ k.big_blocks)
      × (u.ring ≡ r)
      × ((v : Kmem) × (kfree (some p) w ≡ gives none v)
          × (v.big_blocks ≡ xs ++ k.big_blocks)
          × (v.returned ≡ (p, get_page_n (align8 size)) ∷ w.returned)
          × ((x : ℕ) → covers x v.ring ≡ covers x (c ∷ q) + within x a big_units))
kfree-kmalloc s size p a small_pages k r xs w c q l m e d o g h v y =
    let b : Block = record { addr = a; unit_n = big_units } in
    let (t, f, z) = small_free-covers b c q v (Apart-sentinel s b c q y h) in
    let big = big_block a size p in
    let u : Kmem = record k {
      ring = r;
      header = set_header a big_units k.header;
      big_blocks = big ∷ k.big_blocks;
    } in
    let i =
      kmalloc-pages size small_pages (some p) k l
      ∙ ap (hand_out_pages (get_page_n (align8 size)) (some p) k) e in
    let j = kfree-found p w xs big k.big_blocks d refl o m in
    let n : Kmem = record w {
      big_blocks = xs ++ k.big_blocks;
      returned = (p, big.page_n) ∷ w.returned;
    } in
    (
      u,
      i,
      refl,
      refl,
      (record n { ring = t }, j ∙ ap (with_ring none n) (ap (small_free b) g ∙ f), refl, refl, z),
    )
