-- ===== src/Vfs/Files.antt =====
-- The pool of files, os/vfs/vfs_file.c. A `vfs_file_t *` into the pool is an index.
use os_risc_v.Prelude.{
  ℕ, zero, suc, ◌+◌, Bool, true, false, Option, none, some, List, [], ◌∷◌, ℤ, pos, negsuc, ◌==◌,
  ltb, if◌then◌else◌, take,
}
use os_risc_v.Vfs.{Addr, File, M, pure, fault, ◌>>◌}
use os_risc_v.Vfs.Inodes.{inode_refinc}

abbrev pub file_open_max : ℕ
file_open_max = 128

abbrev pub path_max : ℕ
path_max = 32

-- A `const char *`: its bytes, and the byte in memory before them, which the source reads where it
-- looks at the last byte of an empty path.
pub record PathArg : Type 0 where
  pub before : ℕ
  pub bytes : List ℕ

abbrev pub last_of : ℕ → List ℕ → ℕ
last_of b [] = b
last_of b (x ∷ xs) = last_of x xs

abbrev pub last_byte : PathArg → ℕ
last_byte p = last_of p.before p.bytes

unfoldable pub fd2file : ℤ → Option ℕ
fd2file (pos n) = if ltb n file_open_max then some n else none
fd2file (negsuc n) = none

unfoldable pub file2fd : ℕ → ℤ
file2fd i = if ltb i file_open_max then pos i else negsuc 0

abbrev pub set_file : ℕ → File → (ℕ → File) → ℕ → File
set_file i f files k = if k == i then f else files k

abbrev pub is_null : Option Addr → Bool
is_null none = true
is_null (some a) = false

-- The loop of `vfs_file_alloc` over the entries from `i` on, `left` of them.
unfoldable pub alloc_loop : ℕ → ℕ → (ℕ → File) → Option ℕ
alloc_loop zero i files = none
alloc_loop (suc left) i files =
    let rest = alloc_loop left (i + 1) files in if is_null (files i).inode then some i else rest

unfoldable pub file_alloc : (ℕ → File) → Option ℕ
unfolding alloc_loop
file_alloc files = alloc_loop file_open_max 0 files

module _ {D : Type 0} where
  abbrev pub put_file : ℕ → File → M D (Unit {0})
  put_file i f s = some (tt, record s { files = set_file i f s.files })

  unfoldable pub file_free : ℕ → M D (Unit {0})
  file_free i s =
      if ltb i file_open_max
      then put_file i (record (s.files i) { inode = none; pos = 0 }) s
      else some (tt, s)

  abbrev pub refinc_pointer : Option Addr → M D (Unit {0})
  refinc_pointer none = fault
  refinc_pointer (some a) = inode_refinc a

  -- `vfs_file_dup`
  unfoldable pub file_dup : ℕ → M D (Option ℕ)
  unfolding file_alloc
  file_dup old s = elim (file_alloc s.files) [
    | none ↦ some (none, s)
    | some new ↦
        (do
          refinc_pointer (s.files old).inode
          put_file new
              (record (s.files old) { relative_path = take path_max (s.files old).relative_path })
          pure (some new))
          s
  ]
