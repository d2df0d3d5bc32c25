-- ===== src/Vfs/Inodes.antt =====
-- The list of inodes, os/vfs/vfs_inode.c. `k_vfs_inode_list` is the sequence of its inodes, and
-- `kmalloc` is an argument: the address that it returns, or `none`.
use os_risc_v.Prelude.{
  ℕ, ◌+◌, ◌-◌, Bool, true, false, ◌&&◌, Option, none, some, List, [], ◌∷◌, ◌++◌, ℤ, pos, negsuc,
  ◌==◌, ltb, if◌then◌else◌, length, take, drop, get_or,
}
use os_risc_v.CString.Compare.{compare_text}
use os_risc_v.Vfs.{Addr, Inode, InodeOps, char_device, block_device, filesystem, unused, M, ◌>>=◌}

abbrev pub inode_refs_max : ℕ
inode_refs_max = 0x3fffffff

abbrev pub inode_name_max : ℕ
inode_name_max = 31

abbrev pub is_zero : ℤ → Bool
is_zero (pos n) = n == 0
is_zero (negsuc n) = false

-- `strncmp(name, path, name_len) == 0`
unfoldable pub begins_with : List ℕ → List ℕ → Bool
begins_with name path = is_zero (compare_text (take (length name) name) (take (length name) path))

-- `vfs_inode_refdec`
abbrev pub refs_down : ℕ → ℕ
refs_down r = if r == 0 then r else r - 1

-- How the name of an inode meets a path, in the order of the tests of the source.
pub data Match : Type 0 where
  same below other : Match

module _ {D : Type 0} where
  unfoldable pub match_inode : InodeOps D → List ℕ → List ℕ → Match
  match_inode ops name path =
      let exact = (length path == length name) && begins_with name path in
      let under =
        ltb (length name) (length path)
        && (begins_with name path && (get_or path (length name) 0 == b'/')) in
      if ltb (length path) (length name) then other else elim ops [
        | char_device _ ↦ (if exact then same else other)
        | block_device _ ↦ (if exact then same else other)
        | filesystem _ ↦ (if exact then same else if under then below else other)
        | unused ↦ other
      ]

  abbrev pub is_filesystem : InodeOps D → Bool
  is_filesystem (filesystem _) = true
  is_filesystem _ = false

  -- `*relative_path` as an exact match leaves it: a device does not write it.
  abbrev pub relative : InodeOps D → List ℕ → List ℕ → Option (List ℕ) → Option (List ℕ)
  relative ops name path rel = if is_filesystem ops then some (drop (length name) path) else rel

  -- `name_len > max_len`, where `max_len` is -1 before there is a `max_len_inode`.
  abbrev pub longer : Inode D → Option (Inode D) → Bool
  longer n none = true
  longer n (some best) = ltb (length best.name) (length n.name)

  -- The loop of `vfs_inode_search`: `rel` is `*relative_path`, `best` is `max_len_inode`.
  unfoldable pub search_loop :
      List (Inode D)
      → List ℕ
      → Option (List ℕ)
      → Option (Inode D)
      → Option (Inode D) × Option (List ℕ)
  search_loop [] path rel best = (best, rel)
  search_loop (n ∷ ns) path rel best = elim (match_inode n.ops n.name path) [
    | same ↦ (some n, relative n.ops n.name path rel)
    | below ↦
        search_loop ns path (some (drop (length n.name) path))
          (if longer n best then some n else best)
    | other ↦ search_loop ns path rel best
  ]

  -- `vfs_inode_search` and `vfs_inode_find`, where `*relative_path` is null before.
  unfoldable pub inode_find : List ℕ → List (Inode D) → Option (Inode D) × Option (List ℕ)
  unfolding search_loop
  inode_find path ns = search_loop ns path none none

  -- `vfs_mount_inode_search` and `vfs_mount_inode_find`. The second test of a file system asks for
  -- the same lengths as the first, so only exact matches are found.
  unfoldable pub mount_inode_find : List ℕ → List (Inode D) → Option (Inode D)
  mount_inode_find path [] = none
  mount_inode_find path (n ∷ ns) = elim (match_inode n.ops n.name path) [
    | same ↦ some n
    | below ↦ mount_inode_find path ns
    | other ↦ mount_inode_find path ns
  ]

  unfoldable pub inode_at : Addr → List (Inode D) → Option (Inode D)
  inode_at a [] = none
  inode_at a (n ∷ ns) = if n.addr == a then some n else inode_at a ns

  -- A read through a pointer to an inode.
  unfoldable pub deref : Addr → M D (Inode D)
  deref a s = elim (inode_at a s.inodes) [ none ↦ none | some n ↦ some (n, s) ]

  unfoldable pub update_inode : Addr → (Inode D → Inode D) → List (Inode D) → List (Inode D)
  update_inode a f [] = []
  update_inode a f (n ∷ ns) = if n.addr == a then f n ∷ ns else n ∷ update_inode a f ns

  unfoldable pub remove_inode : Addr → List (Inode D) → List (Inode D)
  remove_inode a [] = []
  remove_inode a (n ∷ ns) = if n.addr == a then ns else n ∷ remove_inode a ns

  abbrev pub with_refs : ℕ → Inode D → Inode D
  with_refs k n = record n { refs = k }

  -- `vfs_inode_create`, with memory that `kmalloc` has cleared, and `vfs_inode_alloc`.
  unfoldable pub inode_alloc : List ℕ → Option Addr → M D (Option Addr)
  inode_alloc name memory s =
      if ltb inode_name_max (length name) then some (none, s) else elim memory [
        | none ↦ some (none, s)
        | some a ↦ some (
          some a,
          record s {
            inodes = s.inodes ++ record { addr = a; ops = unused; refs = 1; name = name } ∷ [];
          },
        )
      ]

  -- `VFS_INODE_TYPE_SET` and the assignment to `ops` that follows it.
  unfoldable pub set_ops : Addr → InodeOps D → M D (Unit {0})
  set_ops a ops s =
      some (tt, record s { inodes = update_inode a (λ n. record n { ops = ops }) s.inodes })

  -- `vfs_inode_free`: out of the list and back to `kfree`.
  unfoldable pub inode_free : Addr → M D (Unit {0})
  inode_free a s = some (tt, record s { inodes = remove_inode a s.inodes })

  abbrev pub refs_up : Inode D → Inode D
  refs_up n = if ltb n.refs inode_refs_max then with_refs (n.refs + 1) n else n

  unfoldable pub inode_refinc : Addr → M D (Unit {0})
  inode_refinc a = do
    n ← deref a
    λ s. some (tt, record s { inodes = update_inode a refs_up s.inodes })

  -- `vfs_inode_release`
  unfoldable pub inode_release : Addr → M D (Unit {0})
  unfolding inode_free
  inode_release a = do
    n ← deref a
    λ s.
        if refs_down n.refs == 0
        then inode_free a s
        else some (tt, record s { inodes = update_inode a (with_refs (refs_down n.refs)) s.inodes })

  abbrev pub inode_is_busy : Inode D → Bool
  inode_is_busy n = ltb 1 n.refs
