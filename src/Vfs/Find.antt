-- ===== src/Vfs/Find.antt =====
-- Which inode `vfs_inode_find` of os/vfs/vfs_inode.c returns, by the names of the inodes.
use os_risc_v.Prelude.{
  ℕ, ◌≤◌, ◌≡◌, sym, subst, ◌⊎◌, inl, inr, true, Option, none, some, List, [], ◌∷◌, length,
}
use os_risc_v.CString.Compare.{NonZero}
use os_risc_v.Vfs.{Inode}
use os_risc_v.Vfs.Inodes.{other, inode_find, is_filesystem}
use os_risc_v.Vfs.Search.{meets, All, Among, Longest, Found, inode_find-Found}
use os_risc_v.Vfs.Meet.{IsUnder, is_set, match_inode_iff}

module _ {D : Type 0} (path : List ℕ) where
  -- The name of an inode in use is the path, or it is a file system whose name and a slash begin it.
  abbrev pub IsWhole : Inode D → Type 0
  IsWhole n = (is_set n.ops ≡ true) × (path ≡ n.name)

  abbrev pub IsAbove : Inode D → Type 0
  IsAbove n = (is_filesystem n.ops ≡ true) × IsUnder n.name path

  abbrev pub Named : List (Inode D) → Option (Inode D) → Type 0
  Named ns none = All path (λ m. (¬ IsWhole m) × (¬ IsAbove m)) ns
  Named ns (some n) =
      Among path n ns
      × (IsWhole n
          ⊎ (IsAbove n
              × All path (λ m. (¬ IsWhole m) × (IsAbove m → length m.name ≤ length n.name)) ns))

  module _ (w : NonZero path) where
    others :
        (ns : List (Inode D))
        → All path (λ n. NonZero n.name) ns
        → All path (λ m. meets path m ≡ other) ns
        → All path (λ m. (¬ IsWhole m) × (¬ IsAbove m)) ns
    others [] z a = tt
    others (n ∷ ns) z a =
        let (e, u) = match_inode_iff n.ops n.name path z.0 w in
        (((λ h. cc (a.0, e.1 h)), (λ h. cc (a.0, u.1 h))), others ns z.1 a.1)

    longest :
        (n : Inode D) (ns : List (Inode D))
        → All path (λ m. NonZero m.name) ns
        → Longest path n ns
        → All path (λ m. (¬ IsWhole m) × (IsAbove m → length m.name ≤ length n.name)) ns
    longest n [] z a = tt
    longest n (m ∷ ms) z a =
        let (e, u) = match_inode_iff m.ops m.name path z.0 w in
        (((λ h. a.0.0 (e.1 h)), (λ h. a.0.1 (u.1 h))), longest n ms z.1 a.1)

    its-NonZero :
        (n : Inode D) (ns : List (Inode D))
        → All path (λ m. NonZero m.name) ns
        → Among path n ns
        → NonZero n.name
    its-NonZero n [] z a = absurd a
    its-NonZero n (m ∷ ms) z (inl e) = subst (λ k. NonZero k.name) (sym e) z.0
    its-NonZero n (m ∷ ms) z (inr a) = its-NonZero n ms z.1 a

    named :
        (ns : List (Inode D)) (o : Option (Inode D))
        → All path (λ n. NonZero n.name) ns
        → Found path ns o
        → Named ns o
    named ns none z a = others ns z a
    named ns (some n) z (a, inl s) =
        let (e, u) = match_inode_iff n.ops n.name path (its-NonZero n ns z a) w in (a, inl (e.0 s))
    named ns (some n) z (a, inr (b, l)) =
        let (e, u) = match_inode_iff n.ops n.name path (its-NonZero n ns z a) w in
        (a, inr (u.0 b, longest n ns z l))

-- For a path and names with no zero byte, `vfs_inode_find` returns an inode in use of the list whose
-- name is the whole path, if there is one, else a file system whose name and a slash begin the path
-- and of these one with the longest name, and null exactly where the list has neither.
pub inode_find-Named :
    {D : Type 0} (path : List ℕ) (ns : List (Inode D))
    → NonZero path
    → All path (λ n. NonZero n.name) ns
    → Named path ns (inode_find path ns).0
inode_find-Named path ns w z = named path w ns (inode_find path ns).0 z (inode_find-Found path ns)
