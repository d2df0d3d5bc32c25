-- ===== src/Vfs/Calls.antt =====
-- The calls on a file descriptor, os/vfs/vfs.c. Each finds the file, then the driver function for
-- the type of its inode; a missing function leaves the result at -1.
use os_risc_v.Prelude.{
  ℕ, ◌-◌, ◌%◌, ◌^◌, Option, none, some, ℤ, pos, negsuc, neg, is_neg, ◌==◌, ltb, if◌then◌else◌,
}
use os_risc_v.Vfs.{
  Addr, Hook, File, FileOp, MoveOp, ChrdevOps, FsOps, Inode, InodeOps, char_device, block_device,
  filesystem, unused, M, pure, ◌>>=◌, ◌>>◌,
}
use os_risc_v.Vfs.Err
use os_risc_v.Vfs.Inodes.{deref, inode_release, is_zero}
use os_risc_v.Vfs.Files.{fd2file, file2fd, set_file, file_free, file_dup}

-- The conversion of a `uint64` to the `int` that holds it in `vfs_read` and `vfs_write`.
abbrev pub to_int : ℕ → ℤ
to_int n = if ltb (n % 2 ^ 32) (2 ^ 31) then pos (n % 2 ^ 32) else negsuc (2 ^ 32 - 1 - n % 2 ^ 32)

abbrev pub after_op : File → Hook → File
after_op f h = record f { flags = h.flags; pos = h.pos; private = h.private }

-- `int ret = -1`
abbrev pub minus_one : ℤ
minus_one = negsuc 0

module _ {D : Type 0} where
  -- A call of a driver function on file `i`, if the table has it.
  unfoldable pub call_file : ℕ → Option (FileOp D) → M D ℤ
  call_file i none s = some (minus_one, s)
  call_file i (some op) s =
      let (ret, hook, d) = op (s.files i) s.drivers in
      some (ret, record s { files = set_file i (after_op (s.files i) hook) s.files; drivers = d })

  -- The same for `read` and `write`, whose `uint64` becomes an `int`.
  unfoldable pub call_move : ℕ → ℕ → ℕ → Option (MoveOp D) → M D ℤ
  call_move buf count i none s = some (minus_one, s)
  call_move buf count i (some op) s =
      let (ret, hook, d) = op buf count (s.files i) s.drivers in
      some (
        to_int ret,
        record s { files = set_file i (after_op (s.files i) hook) s.files; drivers = d },
      )

  -- `vfs_fd2file` and the test of its result.
  unfoldable pub with_file : ℤ → (ℕ → M D ℤ) → M D ℤ
  with_file fd k = elim (fd2file fd) [ none ↦ pure (neg Err.file_not_open) | some i ↦ k i ]

  -- A read through `file->inode`, a fault where that is null.
  unfoldable pub with_inode : ℕ → (Inode D → M D ℤ) → M D ℤ
  with_inode i k s = elim (s.files i).inode [ none ↦ none | some a ↦ (do n ← deref a; k n) s ]

  -- The branch on the type of an inode that the calls make.
  abbrev pub by_type : InodeOps D → (FsOps D → M D ℤ) → (ChrdevOps D → M D ℤ) → M D ℤ
  by_type (filesystem o) fs chr = fs o
  by_type (char_device o) fs chr = chr o
  by_type (block_device _) fs chr = pure (neg Err.inode_invalid)
  by_type unused fs chr = pure (neg Err.inode_invalid)

  abbrev pub only_fs : InodeOps D → (FsOps D → M D ℤ) → M D ℤ
  only_fs (filesystem o) fs = fs o
  only_fs (char_device _) fs = pure (neg Err.inode_invalid)
  only_fs (block_device _) fs = pure (neg Err.inode_invalid)
  only_fs unused fs = pure (neg Err.inode_invalid)

  -- The end of `vfs_close`.
  unfoldable pub finish_close : ℕ → Addr → ℤ → M D ℤ
  finish_close i a ret =
      if is_zero ret then (do inode_release a; file_free i; pure ret) else pure ret

  unfoldable pub vfs_close : ℤ → M D ℤ
  unfolding call_file with_file finish_close
  vfs_close fd = with_file fd λ i s. elim (s.files i).inode [
    | none ↦ some (neg Err.inode_not_found, s)
    | some a ↦
        (do
          n ← deref a
          by_type n.ops (λ o. do ret ← call_file i o.close_op; finish_close i a ret)
              (λ o. do ret ← call_file i o.close_op; finish_close i a ret))
          s
  ]

  unfoldable pub vfs_read : ℤ → ℕ → ℕ → M D ℤ
  unfolding call_move with_file with_inode
  vfs_read fd buf count =
      if buf == 0
      then pure (neg Err.buffer_null)
      else with_file fd λ i. with_inode i λ n.
        by_type n.ops (λ o. call_move buf count i o.read_op) (λ o. call_move buf count i o.read_op)

  unfoldable pub vfs_write : ℤ → ℕ → ℕ → M D ℤ
  unfolding call_move with_file with_inode
  vfs_write fd buf count =
      if buf == 0
      then pure (neg Err.buffer_null)
      else with_file fd λ i. with_inode i λ n.
        by_type n.ops (λ o. call_move buf count i o.write_op)
          (λ o. call_move buf count i o.write_op)

  abbrev apply2 : ℕ → ℕ → Option (ℕ → ℕ → FileOp D) → Option (FileOp D)
  apply2 a b none = none
  apply2 a b (some op) = some (op a b)

  abbrev apply1 : ℕ → Option (ℕ → FileOp D) → Option (FileOp D)
  apply1 a none = none
  apply1 a (some op) = some (op a)

  unfoldable pub vfs_lseek : ℤ → ℕ → ℕ → M D ℤ
  unfolding call_file with_file with_inode
  vfs_lseek fd offset whence = with_file fd λ i. with_inode i λ n.
      by_type n.ops (λ o. call_file i (apply2 offset whence o.lseek_op))
        (λ o. call_file i (apply2 offset whence o.lseek_op))

  unfoldable pub vfs_ioctl : ℤ → ℕ → ℕ → M D ℤ
  unfolding call_file with_file with_inode
  vfs_ioctl fd request arg = with_file fd λ i. with_inode i λ n.
      by_type n.ops (λ o. call_file i (apply2 request arg o.ioctl_op))
        (λ o. call_file i (apply2 request arg o.ioctl_op))

  unfoldable pub vfs_sync : ℤ → M D ℤ
  unfolding call_file with_file with_inode
  vfs_sync fd = with_file fd λ i. with_inode i λ n. only_fs n.ops (λ o. call_file i o.sync_op)

  unfoldable pub vfs_fstat : ℤ → ℕ → M D ℤ
  unfolding call_file with_file with_inode
  vfs_fstat fd buf =
      if buf == 0
      then pure (neg Err.buffer_null)
      else with_file fd
          λ i. with_inode i λ n. only_fs n.ops (λ o. call_file i (apply1 buf o.fstat_op))

  unfoldable pub vfs_ftruncate : ℤ → ℕ → M D ℤ
  unfolding call_file with_file with_inode
  vfs_ftruncate fd length =
      with_file fd
        λ i. with_inode i λ n. only_fs n.ops (λ o. call_file i (apply1 length o.truncate_op))

  -- The result of the driver's `dup`, or of a table that has none; a failure gives the entry back.
  unfoldable pub finish_dup : ℕ → ℤ → M D ℤ
  finish_dup new ret =
      if is_neg ret then (do file_free new; file_free new; pure ret) else pure (file2fd new)

  -- The copy of file `i` of a file system.
  unfoldable pub dup_fs : ℕ → FsOps D → M D ℤ
  unfolding call_file finish_dup
  dup_fs i o = do
    copy ← file_dup i
    elim copy [
      | none ↦ pure (neg Err.file_no_available)
      | some new ↦ λ s. elim o.dup_op [
        | none ↦ some (file2fd new, s)
        | some op ↦ (do ret ← call_file new (some (op (s.files i))); finish_dup new ret) s
      ]
    ]

  unfoldable pub vfs_dup : ℤ → M D ℤ
  unfolding with_file with_inode dup_fs
  vfs_dup oldfd = with_file oldfd λ i. with_inode i λ n. only_fs n.ops (dup_fs i)
