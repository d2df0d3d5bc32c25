-- ===== src/Vfs/Open.antt =====
-- `vfs_open` of os/vfs/vfs.c.
use os_risc_v.Prelude.{
  ℕ, Option, none, some, List, ℤ, neg, is_neg, ◌==◌, ltb, if◌then◌else◌, length,
}
use os_risc_v.Vfs.{
  Addr, FileOp, InodeOps, char_device, block_device, filesystem, unused, M, pure, ◌>>=◌, ◌>>◌,
}
use os_risc_v.Vfs.Err
use os_risc_v.Vfs.Inodes.{inode_find, inode_refinc}
use os_risc_v.Vfs.Files.{PathArg, last_byte, path_max, file2fd, file_alloc, put_file, file_free}
use os_risc_v.Vfs.Calls.{call_file, minus_one}

module _ {D : Type 0} where
  -- The end of `vfs_open`: on a failure the entry of the pool is given back.
  unfoldable pub finish_open : ℕ → Addr → ℤ → M D ℤ
  finish_open i a ret =
      if is_neg ret then (do file_free i; pure ret) else (do inode_refinc a; pure (file2fd i))

  -- `strcpy(file->relative_path, pathname)`
  unfoldable pub set_path : ℕ → List ℕ → M D (Unit {0})
  set_path i path s = put_file i (record (s.files i) { relative_path = path }) s

  -- The call of the driver's `open`, if there is one.
  unfoldable pub open_with : List ℕ → ℕ → Addr → Option (FileOp D) → M D ℤ
  unfolding set_path
  open_with path i a none = finish_open i a minus_one
  open_with path i a (some op) = do
    ret ← call_file i (some op)
    set_path i path
    finish_open i a ret

  -- The branch on the type of the inode.
  unfoldable pub open_inode : List ℕ → ℕ → ℕ → Addr → InodeOps D → Option (List ℕ) → M D ℤ
  open_inode path flags i a (filesystem o) none = finish_open i a (neg Err.para_invalid)
  open_inode path flags i a (filesystem o) (some rel) = elim o.open_op [
    | none ↦ open_with path i a none
    | some op ↦ open_with path i a (some (op rel flags))
  ]
  open_inode path flags i a (char_device o) rel = open_with path i a o.open_op
  open_inode path flags i a (block_device _) rel = finish_open i a minus_one
  open_inode path flags i a unused rel = finish_open i a minus_one

  unfoldable pub vfs_open : PathArg → ℕ → M D ℤ
  unfolding open_inode
  vfs_open path flags s =
      if ltb path_max (length path.bytes)
      then some (neg Err.path_too_long, s)
      else if last_byte path == b'/'
      then some (neg Err.para_invalid, s)
      else let (found, rel) = inode_find path.bytes s.inodes in
        elim found [
          | none ↦ some (neg Err.inode_not_found, s)
          | some n ↦ elim (file_alloc s.files) [
            | none ↦ some (neg Err.file_no_available, s)
            | some i ↦
                (do
                  put_file i (record (s.files i) {
                    flags = flags;
                    pos = 0;
                    inode = some n.addr;
                    private = 0;
                  })
                  open_inode path.bytes flags i n.addr n.ops rel)
                  s
          ]
        ]
