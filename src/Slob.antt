-- ===== src/Slob.antt =====
-- The small allocator, os/kernel/slob.c. Addresses are counted in units of 16 bytes. The ring of free
-- blocks is the sequence of their addresses and sizes that starts at `p_free_small_blocks`; the first
-- entry follows the last one.
pub mod Cover
pub mod Search
pub mod Sentinel
pub mod Alloc
pub mod Kmalloc
mod Tests
use os_risc_v.Prelude.{
  ℕ, zero, suc, ◌+◌, ◌-◌, ◌/◌, ◌%◌, ◌^◌, ◌&&◌, ◌||◌, Bool, true, false, not, Option, none, some,
  List, [], ◌∷◌, ◌++◌, ◌==◌, leb, ltb, if◌then◌else◌,
}

pub record Block : Type 0 where
  pub addr : ℕ
  pub unit_n : ℕ

-- The ring after `slob_init`: `free_small_blocks`, which is at `s`.
abbrev pub slob_init : ℕ → List Block
slob_init s = record { addr = s; unit_n = 1 } ∷ []

-- get_unit_n
abbrev pub get_unit_n : ℕ → ℕ
get_unit_n size = (size + 15) % 2 ^ 64 / 16

-- What becomes of a block from which `n` units are taken: nothing, or the rest of it.
abbrev pub rest_of : ℕ → Block → List Block
rest_of n b = if b.unit_n == n then [] else record { addr = b.addr + n; unit_n = b.unit_n - n } ∷ []

-- The loop of `small_alloc` up to the block that it finds: `seen` are the blocks from the first one up
-- to the one before `pre`. The new ring starts at `pre`. The split of a block that is alone makes its
-- rest point to itself, so that the list never comes back to `pre`; this is written [].
unfoldable pub search : ℕ → List Block → Block → List Block → Option (ℕ × List Block)
search n [] pre [] =
    if leb n pre.unit_n then some (pre.addr, (if pre.unit_n == n then pre ∷ [] else [])) else none
search n (b ∷ seen) pre [] =
    if leb n b.unit_n then some (b.addr, (pre ∷ rest_of n b) ++ seen) else none
search n seen pre (b ∷ bs) =
    let go = search n (seen ++ pre ∷ []) b bs in
    if leb n b.unit_n then some (b.addr, (pre ∷ rest_of n b) ++ (bs ++ seen)) else go

-- The test that ends the loop of `small_free`, for a block `q` between `p` and `next`.
abbrev pub fits_between : ℕ → ℕ → ℕ → Bool
fits_between q p next = (ltb p q && ltb q next) || (leb next p && (ltb p q || ltb q next))

-- The ring turned so that it starts at the block where the loop of `small_free` ends; `none` where it
-- goes round for ever.
unfoldable pub place : ℕ → List Block → Block → List Block → Option (Block × List Block)
place q [] p [] = if fits_between q p.addr p.addr then some (p, []) else none
place q (b ∷ seen) p [] = if fits_between q p.addr b.addr then some (p, b ∷ seen) else none
place q seen p (b ∷ bs) =
    let go = place q (seen ++ p ∷ []) b bs in
    if fits_between q p.addr b.addr then some (p, b ∷ (bs ++ seen)) else go

-- The block joined with the one behind it.
abbrev pub join_next : Block → List Block → List Block
join_next q [] = q ∷ []
join_next q (b ∷ bs) =
    if q.addr + q.unit_n == b.addr
    then record q { unit_n = q.unit_n + b.unit_n } ∷ bs
    else q ∷ b ∷ bs

-- Behind a single block follows the block itself.
abbrev pub link_next : Block → Block → List Block → List Block
link_next p q [] =
    if q.addr + q.unit_n == p.addr then record q { unit_n = q.unit_n + p.unit_n } ∷ [] else q ∷ []
link_next p q (b ∷ bs) = join_next q (b ∷ bs)

-- The blocks `p` and the one before the others, joined where they are neighbours.
abbrev pub link_prev : Block → List Block → List Block
link_prev p [] = p ∷ []
link_prev p (q ∷ bs) =
    if p.addr + p.unit_n == q.addr
    then record p { unit_n = p.unit_n + q.unit_n } ∷ bs
    else p ∷ q ∷ bs

abbrev pub relink : Block → Option (Block × List Block) → Option (List Block)
relink q none = none
relink q (some (p, bs)) = some (link_prev p (link_next p q bs))

-- `small_free` of the block `q`; `none` is the endless loop, or a ring with no block.
unfoldable pub small_free : Block → List Block → Option (List Block)
unfolding place
small_free q [] = none
small_free q (p ∷ bs) = relink q (place q.addr [] p bs)

-- What a run of `small_alloc` comes to. The results of `slob_get_pages` are given, one for each call,
-- as the address of the page; `starved` is a run for which more of them are wanted.
pub data Result : Type 0 where
  found : ℕ → List Block → Result
  out_of_pages : List Block → Result
  stuck : Result
  starved : Result

-- PAGE_SIZE / UNIT_SIZE
abbrev pub page_units : ℕ
page_units = 256

abbrev pub search_ring : ℕ → List Block → Option (ℕ × List Block)
search_ring n [] = none
search_ring n (p ∷ bs) = search n [] p bs

abbrev pub go_on : (List Block → Result) → Option (List Block) → Result
go_on go none = stuck
go_on go (some r) = go r

-- The part of the loop that asks for a page and goes on with `go`.
unfoldable pub grow : (List Block → Result) → Option ℕ → List Block → Result
unfolding small_free
grow go none ring = out_of_pages ring
grow go (some a) ring = go_on go (small_free (record { addr = a; unit_n = page_units }) ring)

abbrev pub or_else : Result → Option (ℕ × List Block) → Result
or_else more none = more
or_else more (some (a, r)) = found a r

-- `small_alloc` of `n` units.
unfoldable pub small_alloc : ℕ → List (Option ℕ) → List Block → Result
unfolding search grow
small_alloc n [] ring = or_else starved (search_ring n ring)
small_alloc n (o ∷ pages) ring = or_else (grow (small_alloc n pages) o ring) (search_ring n ring)
