-- ===== src/Vfs/Refs/Dup.antt =====
-- The references to inodes under `vfs_dup` of os/vfs/vfs.c.
use os_risc_v.Prelude.{
  ℕ, ◌<◌, ◌≡◌, refl, inl, inr, Option, none, some, ℤ, arith, is_neg, take, Bool-cases, Option-cases,
}
use mathlib.Core.Path.{subst}
use os_risc_v.Vfs.{
  Addr, File, FileOp, FsOps, Inode, InodeOps, char_device, block_device, filesystem, unused, Vfs,
  ◌>>=◌, ◌>>◌,
}
use os_risc_v.Vfs.Inodes.{inode_at, refs_up, update_inode}
use os_risc_v.Vfs.Files.{
  file_open_max, path_max, set_file, fd2file, file2fd, file_alloc, file_dup, refinc_pointer,
}
use os_risc_v.Vfs.Calls.{
  call_file, after_op, with_file, with_inode, finish_dup, dup_fs, only_fs, vfs_dup,
}
use os_risc_v.Vfs.Pool.{fd2file-file2fd, file_alloc-FirstFree, FirstFree}
use os_risc_v.Vfs.Refs.{IsCounted, spare, balanced-IsCounted, counted-IsBalanced, Unsaturated, Ends}
use os_risc_v.Vfs.Refs.Effects.{freed, file_free_lem, deref_lem, inode_refinc_lem}
use os_risc_v.Vfs.Refs.Counts.{count_files-set}
use os_risc_v.Vfs.Refs.Open.{Opening-start, refinc-IsBalanced}
use os_risc_v.Vfs.Refs.Close.{put-IsBalanced, used_inode}

-- The copy that `vfs_file_dup` writes.
abbrev copy_of : File → File
copy_of f = record f { relative_path = take path_max f.relative_path }

module _ {D : Type 0} where
  free-IsCounted :
      (i : ℕ) (s : Vfs D)
      → i < file_open_max
      → IsCounted s
      → IsCounted (record s { files = set_file i (freed (s.files i)) s.files })
  free-IsCounted i s l c = record {
    distinct = c.distinct;
    counted = λ b.
        ground
          (arith, c.counted b, count_files-set file_open_max i (freed (s.files i)) s.files b l);
  }

  finish_dup-IsCounted :
      (new : ℕ) (ret : ℤ) (s : Vfs D)
      → new < file_open_max
      → IsCounted s
      → Ends (λ r t. IsCounted t) (finish_dup new ret s)
  unfolding finish_dup
  finish_dup-IsCounted new ret s l c = elim (Bool-cases (is_neg ret)) [
    | inl e ↦
        let t : Vfs D = record s { files = set_file new (freed (s.files new)) s.files } in
        rw (e, file_free_lem new s l, ◌>>◌, ◌>>=◌, file_free_lem new t l)
          (free-IsCounted new t l (free-IsCounted new s l c))
    | inr e ↦ rw e c
  ]

  -- The end of `vfs_dup` in the state `s` after the copy, where `old` is the file copied.
  copied-IsCounted :
      (new : ℕ) (op : Option (File → FileOp D)) (old : File) (s : Vfs D)
      → new < file_open_max
      → IsCounted s
      → Ends
          (λ r t. IsCounted t)
          (elim op [
            | none ↦ some (file2fd new, s)
            | some op ↦ (call_file new (some (op old)) >>= finish_dup new) s
          ])
  unfolding call_file
  copied-IsCounted new none old s l c = c
  copied-IsCounted new (some op) old s l c =
      let (ret, hook, d) = op old (s.files new) s.drivers in
      let f : File = after_op (s.files new) hook in
      let t : Vfs D = record s { files = set_file new f s.files; drivers = d } in
      finish_dup-IsCounted new ret t l (
        balanced-IsCounted (spare s) t
          (put-IsBalanced (spare s) new f s d l refl (counted-IsBalanced s c)))

  abbrev after_copy : ℕ → Addr → ℕ → Vfs D → Vfs D
  after_copy i a new s = record s {
    inodes = update_inode a refs_up s.inodes;
    files = set_file new (copy_of (s.files i)) s.files;
  }

  refinc_pointer_lem :
      (o : Option Addr) (a : Addr) (n : Inode D) (s : Vfs D)
      → o ≡ some a
      → inode_at a s.inodes ≡ some n
      → refinc_pointer o s ≡ some (tt, record s { inodes = update_inode a refs_up s.inodes })
  refinc_pointer_lem o a n s e at = rw e (inode_refinc_lem a n s at)

  file_dup_lem :
      (i new : ℕ) (a : Addr) (n : Inode D) (s : Vfs D)
      → file_alloc s.files ≡ some new
      → (s.files i).inode ≡ some a
      → inode_at a s.inodes ≡ some n
      → file_dup i s ≡ some (some new, after_copy i a new s)
  unfolding file_dup
  file_dup_lem i new a n s e f at =
      rw (e, file_dup, refinc_pointer_lem (s.files i).inode a n s f at, ◌>>◌, ◌>>=◌) refl

  after_copy-IsCounted :
      (i new : ℕ) (a : Addr) (n : Inode D) (s : Vfs D)
      → file_alloc s.files ≡ some new
      → (s.files i).inode ≡ some a
      → inode_at a s.inodes ≡ some n
      → IsCounted s
      → Unsaturated s
      → IsCounted (after_copy i a new s)
  after_copy-IsCounted i new a n s e f at c u =
      let free : FirstFree 0 file_open_max s.files (some new) =
        subst (FirstFree 0 file_open_max s.files) e (file_alloc-FirstFree s.files) in
      let null : (s.files new).inode ≡ none = ground (arith, free.2) in
      balanced-IsCounted (spare s) (after_copy i a new s) (
        refinc-IsBalanced (spare s) new a _ (
          Opening-start (spare s) new a n (copy_of (s.files i)) s free.1 null at (u a n at) f
            (counted-IsBalanced s c)))

  file_dup_full : (i : ℕ) (s : Vfs D) → file_alloc s.files ≡ none → file_dup i s ≡ some (none, s)
  unfolding file_dup
  file_dup_full i s e = rw (e, file_dup) refl

  dup_inode-IsCounted :
      (i : ℕ) (a : Addr) (n : Inode D) (ops : FsOps D) (s : Vfs D)
      → (s.files i).inode ≡ some a
      → inode_at a s.inodes ≡ some n
      → IsCounted s
      → Unsaturated s
      → Ends (λ r t. IsCounted t) (dup_fs i ops s)
  unfolding dup_fs
  dup_inode-IsCounted i a n ops s f at c u = elim (Option-cases (file_alloc s.files)) [
    | inl e ↦ rw (file_dup_full i s e, ◌>>◌, ◌>>=◌) c
    | inr (new, e) ↦
        let free : FirstFree 0 file_open_max s.files (some new) =
          subst (FirstFree 0 file_open_max s.files) e (file_alloc-FirstFree s.files) in
        rw (file_dup_lem i new a n s e f at, ◌>>◌, ◌>>=◌)
          (copied-IsCounted new ops.dup_op ((after_copy i a new s).files i) (after_copy i a new s)
            free.1 (after_copy-IsCounted i new a n s e f at c u))
  ]

  only_fs-dup :
      (i : ℕ) (a : Addr) (n : Inode D) (ops : InodeOps D) (s : Vfs D)
      → (s.files i).inode ≡ some a
      → inode_at a s.inodes ≡ some n
      → IsCounted s
      → Unsaturated s
      → Ends (λ r t. IsCounted t) (only_fs ops (dup_fs i) s)
  only_fs-dup i a n (filesystem o) s f at c u = dup_inode-IsCounted i a n o s f at c u
  only_fs-dup i a n (char_device o) s f at c u = c
  only_fs-dup i a n (block_device k) s f at c u = c
  only_fs-dup i a n unused s f at c u = c

  -- From counts that are right, and below the limit at which they stop, `vfs_dup` of an open file
  -- ends without a fault and leaves counts that are right, whether it succeeds or fails.
  pub vfs_dup-IsCounted :
      (fd : ℤ) (i : ℕ) (a : Addr) (s : Vfs D)
      → fd2file fd ≡ some i
      → (s.files i).inode ≡ some a
      → IsCounted s
      → Unsaturated s
      → Ends (λ r t. IsCounted t) (vfs_dup fd s)
  unfolding vfs_dup with_file with_inode
  vfs_dup-IsCounted fd i a s e f c u =
      let (n, at, m) = used_inode i a s (fd2file-file2fd fd i e).1 f c in
      rw (e, vfs_dup, with_file, with_inode, f, deref_lem a n s at, ◌>>=◌)
        (only_fs-dup i a n n.ops s f at c u)
