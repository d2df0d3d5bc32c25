-- ===== src/PageAlloc/Take.antt =====
-- `alloc_pages` of os/kernel/page.c.
use os_risc_v.Prelude.{ℕ, ◌≤◌, ◌<◌, ◌≡◌, refl, true, none, some, List, [], ◌∷◌, arith, has}
use mathlib.Core.Logic.{◌↔◌}
use mathlib.Core.Path.{subst}
use os_risc_v.PageAlloc.{Page, Pool, first_fit, take_block, alloc_pages}
use os_risc_v.PageAlloc.Blocks.{total}
use os_risc_v.PageAlloc.Validity.{size_of, IsValid}
use os_risc_v.PageAlloc.Cut.{first_fit-some, first_fit-none, Taken, cut-Taken}

pub alloc_pages-some :
    (n : ℕ) (s t : Pool) (page : ℕ)
    → alloc_pages n s ≡ (some page, t)
    → (first_fit s.pages_map n s.pages_list ≡ some page) × (take_block page n s ≡ t)
unfolding alloc_pages
alloc_pages-some n s t page e = ground arith

-- Where `alloc_pages` on a valid pool returns a page, the `n` pages from it on were free and are then
-- in use and counted once, flag and count of every other page are as before, the pool counts `n`
-- free pages less, and it is valid.
pub alloc_pages-Taken :
    (n : ℕ) (s t : Pool) (page : ℕ)
    → IsValid s
    → alloc_pages n s ≡ (some page, t)
    → Taken n s page t
unfolding alloc_pages
alloc_pages-Taken n s t page v e =
    let r = alloc_pages-some n s t page e in
    let f = first_fit-some s.pages_map n s.pages_list page r.0 in
    subst (Taken n s page) r.1 (cut-Taken s page n v f.0 f.1)

le-total : (size : ℕ → ℕ) (p : ℕ) (bs : List ℕ) → has p bs ≡ true → size p ≤ total size bs
le-total size p [] h = absurd (cc)
le-total size p (b ∷ bs) h = ground (arith, le-total size p bs)

none_of_small :
    (m : ℕ → Page) (n : ℕ) (ps : List ℕ)
    → ((p : ℕ) → has p ps ≡ true → size_of m p < n)
    → first_fit m n ps ≡ none
unfolding first_fit
none_of_small m n [] a = refl
none_of_small m n (q ∷ ps) a = ground (arith, a q, none_of_small m n ps (λ p i. a p (ground arith)))

-- `alloc_pages` on a valid pool returns null exactly when every block of the list has fewer than
-- `n` pages, and then it changes nothing.
pub alloc_pages-none_iff :
    (n : ℕ) (s : Pool)
    → IsValid s
    → (((alloc_pages n s).0 ≡ none)
        ↔ ((p : ℕ) → has p s.pages_list ≡ true → size_of s.pages_map p < n))
      × ((alloc_pages n s).0 ≡ none → (alloc_pages n s).1 ≡ s)
unfolding alloc_pages
alloc_pages-none_iff n s v =
    let size = size_of s.pages_map in
    (
      (
        λ e p h. ground (
          arith,
          v.counted,
          le-total size p s.pages_list h,
          first_fit-none s.pages_map n s.pages_list p,
        ),
        λ a. ground (arith, none_of_small s.pages_map n s.pages_list a),
      ),
      λ e. ground arith,
    )
