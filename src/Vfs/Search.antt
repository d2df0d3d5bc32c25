-- ===== src/Vfs/Search.antt =====
-- Which inode `vfs_inode_find` returns, and which part of the path it hands to the file system.
use os_risc_v.Prelude.{
  ℕ, ◌≤◌, ◌<◌, ◌≡◌, ◌≢◌, refl, sym, ◌∙◌, ◌⊎◌, inl, inr, ◌↔◌, true, Option, none, some, List, [],
  ◌∷◌, ℤ, pos, arith, ltb, if◌then◌else◌, length, take, drop, Bool-cases,
}
use os_risc_v.CString.Compare.{compare_text-Compares, NonZero, NonZero-take}
use os_risc_v.Vfs.{Inode}
use os_risc_v.Vfs.Inodes.{
  begins_with, Match, same, below, other, match_inode, longer, relative, search_loop, inode_find,
  is_zero,
}

pub take-length : (xs : List ℕ) → take (length xs) xs ≡ xs
take-length [] = refl
take-length (x ∷ xs) = ground (arith, take-length xs)

is_zero_iff : (r : ℤ) → (is_zero r ≡ true) ↔ (r ≡ pos 0)
is_zero_iff r = (λ e. ground arith, λ e. ground arith)

-- For a name and a path with no zero byte, `strncmp(name, path, strlen(name)) == 0` holds exactly
-- where the path begins with the name.
pub begins_with_iff :
    (name path : List ℕ)
    → NonZero name
    → NonZero path
    → (begins_with name path ≡ true) ↔ (take (length name) path ≡ name)
unfolding begins_with
begins_with_iff name path p q =
    let c =
      compare_text-Compares (take (length name) name) (take (length name) path)
        (NonZero-take (length name) name p) (NonZero-take (length name) path q) in
    (
      λ e. sym (c.0.0 ((is_zero_iff _).0 e)) ∙ take-length name,
      λ e. (is_zero_iff _).1 (c.0.1 (take-length name ∙ sym e)),
    )

pub Match-cases : (m : Match) → (m ≡ same) ⊎ ((m ≡ below) ⊎ (m ≡ other))
Match-cases same = inl refl
Match-cases below = inr (inl refl)
Match-cases other = inr (inr refl)

module _ {D : Type 0} (path : List ℕ) where
  abbrev pub meets : Inode D → Match
  meets n = match_inode n.ops n.name path

  abbrev pub All : (Inode D → Type 0) → List (Inode D) → Type 0
  All P [] = Unit
  All P (n ∷ ns) = P n × All P ns

  abbrev pub Among : Inode D → List (Inode D) → Type 0
  Among n [] = ⊥
  Among n (m ∷ ms) = (n ≡ m) ⊎ Among n ms

  -- No inode is an exact match, and no match from below has a longer name than `n`.
  abbrev pub Longest : Inode D → List (Inode D) → Type 0
  Longest n = All (λ m. (meets m ≢ same) × (meets m ≡ below → length m.name ≤ length n.name))

  -- The inode found: an exact match, or else the longest name above the path, or else none.
  abbrev pub Found : List (Inode D) → Option (Inode D) → Type 0
  Found ns none = All (λ m. meets m ≡ other) ns
  Found ns (some n) = Among n ns × ((meets n ≡ same) ⊎ ((meets n ≡ below) × Longest n ns))

  -- The loop with a candidate `b`.
  abbrev After : Inode D → List (Inode D) → Option (Inode D) → Type 0
  After b ns none = ⊥
  After b ns (some n) =
      (Among n ns × (meets n ≡ same))
      ⊎ (((n ≡ b) ⊎ Among n ns)
          × (meets n ≡ below)
          × (length b.name ≤ length n.name)
          × Longest n ns)

  After-longer :
      (b n : Inode D) (ns : List (Inode D)) (o : Option (Inode D))
      → meets n ≡ below
      → length b.name ≤ length n.name
      → After n ns o
      → After b (n ∷ ns) o
  After-longer b n ns none e l a = a
  After-longer b n ns (some m) e l (inl h) = inl (inr h.0, h.1)
  After-longer b n ns (some m) e l (inr h) =
      inr (inr h.0, h.1, omega (arith, h.2), ((λ q. ground (arith, e), λ q. h.2), h.3))

  weaken :
      (m b n : Inode D) (ns : List (Inode D)) → (m ≡ b) ⊎ Among m ns → (m ≡ b) ⊎ Among m (n ∷ ns)
  weaken m b n ns (inl e) = inl e
  weaken m b n ns (inr a) = inr (inr a)

  After-skip :
      (b n : Inode D) (ns : List (Inode D)) (o : Option (Inode D))
      → meets n ≢ same
      → (meets n ≡ below → length n.name ≤ length b.name)
      → After b ns o
      → After b (n ∷ ns) o
  After-skip b n ns none ne le a = a
  After-skip b n ns (some m) ne le (inl h) = inl (inr h.0, h.1)
  After-skip b n ns (some m) ne le (inr h) =
      inr (weaken m b n ns h.0, h.1, h.2, ((ne, λ q. omega (arith, le q, h.2)), h.3))

  module _ (n : Inode D) (ns : List (Inode D)) (rel : Option (List ℕ))
      (best : Option (Inode D)) where
    pub step_same :
        meets n ≡ same
        → search_loop (n ∷ ns) path rel best ≡ (some n, relative n.ops n.name path rel)
    unfolding search_loop
    step_same e = rw (e, search_loop)

    pub step_below :
        meets n ≡ below
        → search_loop (n ∷ ns) path rel best
          ≡ search_loop ns path
              (some (drop (length n.name) path))
              (if longer n best then some n else best)
    unfolding search_loop
    step_below e = rw (e, search_loop)

    pub step_other :
        meets n ≡ other → search_loop (n ∷ ns) path rel best ≡ search_loop ns path rel best
    unfolding search_loop
    step_other e = rw (e, search_loop)

  search_loop-After :
      (ns : List (Inode D)) (rel : Option (List ℕ)) (b : Inode D)
      → meets b ≡ below
      → After b ns (search_loop ns path rel (some b)).0
  unfolding search_loop
  search_loop-After [] rel b e = inr (inl refl, e, omega arith, tt)
  search_loop-After (n ∷ ns) rel b e = elim (Match-cases (meets n)) [
    | inl s ↦ rw (step_same n ns rel (some b) s) (inl (inl refl, s))
    | inr (inl u) ↦ elim (Bool-cases (ltb (length b.name) (length n.name))) [
      | inl l ↦
          rw (step_below n ns rel (some b) u, l)
            (After-longer b n ns _ u (ground arith)
              (search_loop-After ns (some (drop (length n.name) path)) n u))
      | inr l ↦
          rw (step_below n ns rel (some b) u, l)
            (After-skip b n ns _ (λ q. ground (arith, u)) (λ q. ground arith)
              (search_loop-After ns (some (drop (length n.name) path)) b e))
    ]
    | inr (inr o) ↦ rw (step_other n ns rel (some b) o) (
        After-skip b n ns _ (λ q. ground (arith, o)) (λ q. ground (arith, o))
          (search_loop-After ns rel b e))
  ]

  Found-below :
      (n : Inode D) (ns : List (Inode D)) (o : Option (Inode D))
      → meets n ≡ below
      → After n ns o
      → Found (n ∷ ns) o
  Found-below n ns none e a = absurd a
  Found-below n ns (some m) e (inl h) = (inr h.0, inl h.1)
  Found-below n ns (some m) e (inr h) = (h.0, inr (h.1, ((λ q. ground (arith, e), λ q. h.2), h.3)))

  Found-other :
      (n : Inode D) (ns : List (Inode D)) (o : Option (Inode D))
      → meets n ≡ other
      → Found ns o
      → Found (n ∷ ns) o
  Found-other n ns none e a = (e, a)
  Found-other n ns (some m) e (a, inl h) = (inr a, inl h)
  Found-other n ns (some m) e (a, inr h) =
      (inr a, inr (h.0, ((λ q. ground (arith, e), λ q. ground (arith, e)), h.1)))

  search_loop-Found :
      (ns : List (Inode D)) (rel : Option (List ℕ)) → Found ns (search_loop ns path rel none).0
  unfolding search_loop
  search_loop-Found [] rel = tt
  search_loop-Found (n ∷ ns) rel = elim (Match-cases (meets n)) [
    | inl s ↦ rw (step_same n ns rel none s) (inl refl, inl s)
    | inr (inl u) ↦
        rw (step_below n ns rel none u)
          (Found-below n ns _ u (search_loop-After ns (some (drop (length n.name) path)) n u))
    | inr (inr o) ↦
        rw (step_other n ns rel none o) (Found-other n ns _ o (search_loop-Found ns rel))
  ]

-- `vfs_inode_find` returns an inode of the list whose name is the whole path, if there is one, else
-- a file system whose name and a slash begin the path and of these one with the longest name, and
-- null exactly where the list has neither.
pub inode_find-Found :
    {D : Type 0} (path : List ℕ) (ns : List (Inode D)) → Found path ns (inode_find path ns).0
unfolding inode_find
inode_find-Found path ns = search_loop-Found path ns none

-- In a list of just two file systems above a path, where the second has the shorter name,
-- `vfs_inode_find` returns the first, but hands it the part of the path below the second.
pub inode_find-mismatch :
    {D : Type 0} (path : List ℕ) (n m : Inode D)
    → match_inode n.ops n.name path ≡ below
    → match_inode m.ops m.name path ≡ below
    → length m.name < length n.name
    → inode_find path (n ∷ m ∷ []) ≡ (some n, some (drop (length m.name) path))
unfolding inode_find
inode_find-mismatch path n m p q l = ground (arith, p, q)
