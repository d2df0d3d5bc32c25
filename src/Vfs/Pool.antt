-- ===== src/Vfs/Pool.antt =====
-- The pool of files: descriptors and entries, and the search for a free entry.
use os_risc_v.Prelude.{
  ℕ, zero, suc, ◌+◌, ◌≤◌, ◌<◌, ◌≡◌, refl, inl, inr, true, false, Option, none, some, ℤ, arith, ◌==◌,
  Bool-cases,
}
use os_risc_v.Vfs.{File}
use os_risc_v.Vfs.Files.{file_open_max, fd2file, file2fd, is_null, alloc_loop, file_alloc}

-- Where `vfs_fd2file` accepts a descriptor, `vfs_file2fd` gives it back for the entry found, which
-- is one of the 128 of the pool.
pub fd2file-file2fd :
    (fd : ℤ) (i : ℕ) → fd2file fd ≡ some i → (file2fd i ≡ fd) × (i < file_open_max)
unfolding fd2file file2fd
fd2file-file2fd fd i e = ground arith

-- What the search for a free entry returns: the first one, or `none` where all are in use.
abbrev pub FirstFree : ℕ → ℕ → (ℕ → File) → Option ℕ → Type 0
FirstFree i end files none = (k : ℕ) → i ≤ k → k < end → is_null (files k).inode ≡ false
FirstFree i end files (some j) =
    (i ≤ j)
    × (j < end)
    × (is_null (files j).inode ≡ true)
    × ((k : ℕ) → i ≤ k → k < j → is_null (files k).inode ≡ false)

FirstFree-skip :
    (i end : ℕ) (files : ℕ → File) (o : Option ℕ)
    → is_null (files i).inode ≡ false
    → FirstFree (i + 1) end files o
    → FirstFree i end files o
FirstFree-skip i end files none taken r =
    λ k a b. elim (Bool-cases (k == i)) [ inl e ↦ ground arith | inr e ↦ r k (ground arith) b ]
FirstFree-skip i end files (some j) taken r = (
  omega arith,
  r.1,
  r.2,
  λ k a b. elim (Bool-cases (k == i)) [ inl e ↦ ground arith | inr e ↦ r.3 k (ground arith) b ],
)

alloc_loop-FirstFree :
    (left i end : ℕ) (files : ℕ → File)
    → i + left ≡ end
    → FirstFree i end files (alloc_loop left i files)
unfolding alloc_loop
alloc_loop-FirstFree zero i end files e = λ k a b. absurd (omega arith)
alloc_loop-FirstFree (suc left) i end files e = elim (Bool-cases (is_null (files i).inode)) [
  | inl free ↦ rw free (omega arith, omega arith, free, λ k a b. absurd (omega arith))
  | inr taken ↦ rw taken (
      FirstFree-skip i end files (alloc_loop left (i + 1) files) taken
        (alloc_loop-FirstFree left (i + 1) end files (omega arith)))
]

-- `vfs_file_alloc` returns the first entry of the pool that is free, and fails exactly where all 128
-- are in use.
pub file_alloc-FirstFree : (files : ℕ → File) → FirstFree 0 file_open_max files (file_alloc files)
unfolding file_alloc
file_alloc-FirstFree files = alloc_loop-FirstFree file_open_max 0 file_open_max files refl
