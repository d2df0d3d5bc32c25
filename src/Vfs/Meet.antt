-- ===== src/Vfs/Meet.antt =====
-- What the tests of `vfs_inode_search` on one inode mean, os/vfs/vfs_inode.c.
use os_risc_v.Prelude.{
  ℕ, ◌<◌, ◌≡◌, refl, sym, ◌∙◌, ap, ◌↔◌, Bool, true, false, ◌&&◌, List, arith, ◌==◌, ltb,
  if◌then◌else◌, length, take, get_or,
}
use os_risc_v.CString.Compare.{NonZero}
use os_risc_v.Vfs.{InodeOps, char_device, block_device, filesystem, unused}
use os_risc_v.Vfs.Inodes.{begins_with, Match, same, below, other, match_inode, is_filesystem}
use os_risc_v.Vfs.Search.{begins_with_iff, take-length}

-- The path goes on behind the name with a slash.
abbrev pub IsUnder : List ℕ → List ℕ → Type 0
IsUnder name path =
    (length name < length path)
    × (take (length name) path ≡ name)
    × (get_or path (length name) 0 ≡ b'/')

module _ {D : Type 0} where
  abbrev pub is_set : InodeOps D → Bool
  is_set unused = false
  is_set _ = true

module _ (name path : List ℕ) (z : NonZero name) (w : NonZero path) where
  exact_iff : (((length path == length name) && begins_with name path) ≡ true) ↔ (path ≡ name)
  exact_iff = (
    λ e.
        let l : length path ≡ length name = ground arith in
        let b : begins_with name path ≡ true = ground arith in
        sym (take-length path) ∙ ap (λ k. take k path) l ∙ (begins_with_iff name path z w).0 b,
    λ e.
        let b =
          (begins_with_iff name path z w).1 (ap (λ p. take (length name) p) e ∙ take-length name) in
        let l : length path ≡ length name = ap length e in ground (arith, b, l),
  )

  IsUnder-iff :
      ((ltb (length name) (length path)
          && (begins_with name path && (get_or path (length name) 0 == b'/')))
        ≡ true)
      ↔ IsUnder name path
  IsUnder-iff = (
    λ e.
        let b : begins_with name path ≡ true = ground arith in
        (ground arith, (begins_with_iff name path z w).0 b, ground arith),
    λ u. let b = (begins_with_iff name path z w).1 u.1 in ground (arith, b, u.0, u.2),
  )

-- The tests in their order.
abbrev pick : Bool → Bool → Bool → Match
pick shorter exact under =
    if shorter then other else if exact then same else if under then below else other

pick-same : (s e u : Bool) → (s ≡ true → e ≡ false) → (pick s e u ≡ same) ↔ (e ≡ true)
pick-same s e u f = (λ h. ground (arith, f), λ h. ground (arith, f))

pick_below :
    (s e u : Bool)
    → (s ≡ true → u ≡ false)
    → (e ≡ true → u ≡ false)
    → (pick s e u ≡ below) ↔ (u ≡ true)
pick_below s e u f g = (λ h. ground (arith, f, g), λ h. ground (arith, f, g))

abbrev exact : List ℕ → List ℕ → Bool
exact name path = (length path == length name) && begins_with name path

abbrev under : List ℕ → List ℕ → Bool
under name path =
    ltb (length name) (length path)
    && (begins_with name path && (get_or path (length name) 0 == b'/'))

exact_short :
    (name path : List ℕ) → ltb (length path) (length name) ≡ true → exact name path ≡ false
exact_short name path e = ground arith

under_short :
    (name path : List ℕ) → ltb (length path) (length name) ≡ true → under name path ≡ false
under_short name path e = ground arith

under-exact : (name path : List ℕ) → exact name path ≡ true → under name path ≡ false
under-exact name path e = ground arith

-- A device meets a path as the same or not at all.
device :
    (name path : List ℕ)
    → NonZero name
    → NonZero path
    → ((pick (ltb (length path) (length name)) (exact name path) false ≡ same)
        ↔ ((true ≡ true) × (path ≡ name)))
      × ((pick (ltb (length path) (length name)) (exact name path) false ≡ below)
          ↔ ((false ≡ true) × IsUnder name path))
device name path z w =
    let short = ltb (length path) (length name) in
    let p = pick-same short (exact name path) false (exact_short name path) in
    let q = pick_below short (exact name path) false (λ h. refl) (λ h. refl) in
    let e = exact_iff name path z w in
    (
      (λ h. (refl, e.0 (p.0 h)), λ h. p.1 (e.1 h.1)),
      (λ h. absurd (ground (arith, q.0 h)), λ h. absurd (ground (arith, h.0))),
    )

-- For a name and a path with no zero byte, an inode in use meets the path as the same exactly where
-- its name is the path, and as a place above it exactly where it is a file system and the path goes
-- on behind its name with a slash.
pub match_inode_iff :
    {D : Type 0} (ops : InodeOps D) (name path : List ℕ)
    → NonZero name
    → NonZero path
    → ((match_inode ops name path ≡ same) ↔ ((is_set ops ≡ true) × (path ≡ name)))
      × ((match_inode ops name path ≡ below) ↔ ((is_filesystem ops ≡ true) × IsUnder name path))
unfolding match_inode
match_inode_iff (filesystem o) name path z w =
    let short = ltb (length path) (length name) in
    let p = pick-same short (exact name path) (under name path) (exact_short name path) in
    let q =
      pick_below short (exact name path) (under name path) (under_short name path)
        (under-exact name path) in
    let e = exact_iff name path z w in
    let u = IsUnder-iff name path z w in
    ((λ h. (refl, e.0 (p.0 h)), λ h. p.1 (e.1 h.1)), (λ h. (refl, u.0 (q.0 h)), λ h. q.1 (u.1 h.1)))
match_inode_iff (char_device o) name path z w = device name path z w
match_inode_iff (block_device k) name path z w = device name path z w
match_inode_iff unused name path z w =
    let short = ltb (length path) (length name) in
    let p = pick-same short false false (λ h. refl) in
    let q = pick_below short false false (λ h. refl) (λ h. refl) in
    ((λ h. ground (arith, p.0), λ h. ground arith), (λ h. ground (arith, q.0), λ h. ground arith))
