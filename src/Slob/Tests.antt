-- ===== src/Slob/Tests.antt =====
-- A ring with the sentinel at 10 and one block of 100 units.
use os_risc_v.Prelude.{ℕ, ◌+◌, ◌≤◌, ◌≡◌, refl, none, some, Option, List, [], ◌∷◌, arith}
use os_risc_v.Slob.{Block, slob_init, small_alloc, small_free, search, found}
use os_risc_v.Slob.Cover.{covers, within, small_free-covers}
use os_risc_v.Slob.Sentinel.{Clear}
use os_risc_v.Slob.Alloc.{Allocates, small_alloc-Allocates}
use os_risc_v.Slob.Kmalloc.{BigBlock, Kmem, gives, align8, get_page_n, big_units, kmalloc, kfree}
use os_risc_v.Slob.Kmalloc.Roundtrip.{big_block, kfree-kmalloc}

abbrev sentinel : Block
sentinel = record { addr = 10; unit_n = 1 }

abbrev hundred : Block
hundred = record { addr = 1280; unit_n = 100 }

abbrev two : List Block
two = sentinel ∷ hundred ∷ []

-- A request of one unit gets `free_small_blocks` itself.
takes_sentinel :
    (pages : List (Option ℕ))
    → small_alloc 1 (none ∷ pages) (slob_init 10) ≡ found 10 (slob_init 10)
unfolding small_alloc search
takes_sentinel pages = refl

forty : small_alloc 40 [] two ≡ found 1280 (sentinel ∷ record { addr = 1320; unit_n = 60 } ∷ [])
unfolding small_alloc search
forty = refl

clear : (a n : ℕ) → 11 ≤ a → Clear 10 (record { addr = a + 1; unit_n = n })
clear a n l = record {
  stops = λ e. absurd (omega (arith, e, l));
  starts = λ e. absurd (omega (arith, e, l));
}

small_alloc-Allocates_example : Allocates 10 200 2560 two (small_alloc 200 (some 2560 ∷ []) two)
small_alloc-Allocates_example =
    small_alloc-Allocates 10 200 2560 sentinel (hundred ∷ []) (omega arith) (omega arith) refl
      (λ e. absurd (omega (arith, e)), (λ e. absurd (omega (arith, e)), tt))
      (clear 2559 256 (omega arith))

small_free-covers_example :
    (r : List Block) × (small_free (record { addr = 1380; unit_n = 4 }) two ≡ some r)
    × ((u : ℕ) → covers u r ≡ covers u two + within u 1380 4)
small_free-covers_example =
    small_free-covers (record { addr = 1380; unit_n = 4 }) sentinel (hundred ∷ [])
      (λ e. absurd (omega (arith, e)), (λ e. absurd (omega (arith, e)), tt)) tt

abbrev memory : Kmem
memory = record { ring = two; header = λ a. 0; big_blocks = []; returned = [] }

took_two : small_alloc 2 [] two ≡ found 1280 (sentinel ∷ record { addr = 1282; unit_n = 98 } ∷ [])
unfolding small_alloc search
took_two = refl

-- A block of pages that is given out later.
abbrev later : BigBlock
later = record { node = 1300; page_n = 1; pages = 7680 }

-- `memory` when the block at 5120 and then the one at 7680 have been given out.
abbrev two_out : Kmem
two_out = record memory {
  ring = sentinel ∷ record { addr = 1290; unit_n = 8 } ∷ [];
  big_blocks = later ∷ big_block 1280 9000 5120 ∷ [];
}

kfree-kmalloc_example :
    (u : Kmem) × (kmalloc 9000 [] (some 5120) memory ≡ gives (some 5120) u)
    × (u.big_blocks ≡ big_block 1280 9000 5120 ∷ [])
    × (u.ring ≡ sentinel ∷ record { addr = 1282; unit_n = 98 } ∷ [])
    × ((v : Kmem) × (kfree (some 5120) two_out ≡ gives none v)
        × (v.big_blocks ≡ later ∷ [])
        × (v.returned ≡ (5120, get_page_n (align8 9000)) ∷ [])
        × ((x : ℕ)
            → covers x v.ring
              ≡ covers x (sentinel ∷ record { addr = 1290; unit_n = 8 } ∷ [])
                + within x 1280 big_units))
kfree-kmalloc_example =
    kfree-kmalloc 10 9000 5120 1280 [] memory (sentinel ∷ record { addr = 1282; unit_n = 98 } ∷ [])
      (later ∷ []) two_out sentinel (record { addr = 1290; unit_n = 8 } ∷ []) (omega arith) refl
      took_two refl (refl, tt) refl refl
      (λ e. absurd (omega (arith, e)), (λ e. absurd (omega (arith, e)), tt))
      (clear 1279 2 (omega arith))
