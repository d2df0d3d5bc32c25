-- ===== src/Vfs/Dirs.antt =====
-- The calls on directories, os/vfs/vfs.c. A `VFS_DIR *` is the address of an open directory.
use os_risc_v.Prelude.{
  ℕ, ◌-◌, Option, none, some, List, [], ◌∷◌, ℤ, is_neg, ◌==◌, ltb, if◌then◌else◌, length, take,
}
use os_risc_v.Vfs.{
  Addr, Hook, Dir, DirOp, Inode, FsOps, char_device, block_device, filesystem, unused, M, pure,
  ◌>>=◌, ◌>>◌,
}
use os_risc_v.Vfs.Inodes.{inode_find, inode_refinc, inode_release, deref, is_zero}
use os_risc_v.Vfs.Files.{path_max, last_of}
use os_risc_v.Vfs.Calls.{minus_one, only_fs}

-- `relative_path` as `vfs_opendir` keeps it: with no slash at its end.
unfoldable pub trim : List ℕ → List ℕ
trim rel = if last_of 0 rel == b'/' then take (length rel - 1) rel else rel

abbrev pub after_dir_op : Dir → Hook → Dir
after_dir_op d h = record d { pos = h.pos; private = h.private }

unfoldable pub dir_at : Addr → List (Addr × Dir) → Option Dir
dir_at p [] = none
dir_at p ((q, d) ∷ ds) = if q == p then some d else dir_at p ds

unfoldable pub set_dir : Addr → Dir → List (Addr × Dir) → List (Addr × Dir)
set_dir p d [] = []
set_dir p d ((q, e) ∷ ds) = if q == p then (q, d) ∷ ds else (q, e) ∷ set_dir p d ds

unfoldable pub remove_dir : Addr → List (Addr × Dir) → List (Addr × Dir)
remove_dir p [] = []
remove_dir p ((q, e) ∷ ds) = if q == p then ds else (q, e) ∷ remove_dir p ds

module _ {D : Type 0} where
  -- A call of a driver function on an open directory, if the table has it.
  unfoldable pub call_dir : Addr → Dir → Option (DirOp D) → M D ℤ
  call_dir p d none s = some (minus_one, s)
  call_dir p d (some op) s =
      let (ret, hook, drv) = op d s.drivers in
      some (ret, record s { dirs = set_dir p (after_dir_op d hook) s.dirs; drivers = drv })

  -- The end of `vfs_opendir`: a directory that the driver refused is given back.
  unfoldable pub finish_opendir : Addr → Dir → ℤ → M D (Option Addr)
  finish_opendir p d ret = if is_neg ret then pure none else do
    λ s. some (tt, record s { dirs = (p, d) ∷ s.dirs })
    inode_refinc d.inode
    pure (some p)

  -- The call of the driver's `opendir` on the new directory; `strlen` of a null path is a fault.
  unfoldable pub opendir_inode : Addr → Dir → FsOps D → Option (List ℕ) → M D (Option Addr)
  unfolding finish_opendir
  opendir_inode p d o rel s = elim o.opendir_op [
    | none ↦ finish_opendir p d minus_one s
    | some op ↦ elim rel [
      | none ↦ none
      | some r ↦
          let (ret, hook, drv) = op r d s.drivers in
          finish_opendir p (record (after_dir_op d hook) { relative_path = trim r }) ret
            (record s { drivers = drv })
    ]
  ]

  -- `vfs_opendir`; `memory` is what `kmalloc` returns, cleared.
  unfoldable pub vfs_opendir : Option (List ℕ) → Option Addr → M D (Option Addr)
  unfolding opendir_inode
  vfs_opendir none memory s = some (none, s)
  vfs_opendir (some path) memory s =
      if ltb path_max (length path)
      then some (none, s)
      else let (found, rel) = inode_find path s.inodes in
        elim found [
          | none ↦ some (none, s)
          | some n ↦ elim n.ops [
            | char_device _ ↦ some (none, s)
            | block_device _ ↦ some (none, s)
            | unused ↦ some (none, s)
            | filesystem o ↦ elim memory [
              | none ↦ some (none, s)
              | some p ↦
                  opendir_inode p
                    (record { pos = 0; inode = n.addr; private = 0; relative_path = [] }) o rel s
            ]
          ]
        ]

  -- The directory behind a pointer, and its inode; a fault where it is not open.
  unfoldable pub with_dir : {A : Type 0} → Addr → (Dir → Inode D → M D A) → M D A
  with_dir p k s = elim (dir_at p s.dirs) [ none ↦ none | some d ↦ (do n ← deref d.inode; k d n) s ]

  -- The end of `vfs_closedir`.
  unfoldable pub finish_closedir : Addr → Addr → ℤ → M D ℤ
  finish_closedir p a ret =
      if is_zero ret
      then (do inode_release a; λ s. some (tt, record s { dirs = remove_dir p s.dirs }); pure ret)
      else pure ret

  unfoldable pub vfs_closedir : Addr → M D ℤ
  unfolding call_dir with_dir finish_closedir
  vfs_closedir p =
      with_dir p
        λ d n. only_fs n.ops λ o. do ret ← call_dir p d o.closedir_op; finish_closedir p n.addr ret

  -- `vfs_readdir` returns the buffer of the directory, which stands here as its address.
  unfoldable pub vfs_readdir : Option Addr → M D (Option Addr)
  unfolding call_dir with_dir
  vfs_readdir none = pure none
  vfs_readdir (some p) = with_dir p λ d n. elim n.ops [
    | filesystem o ↦ do ret ← call_dir p d o.readdir_op; pure (if is_zero ret then some p else none)
    | char_device _ ↦ pure none
    | block_device _ ↦ pure none
    | unused ↦ pure none
  ]

  unfoldable pub vfs_rewinddir : Addr → M D ℤ
  unfolding call_dir with_dir
  vfs_rewinddir p = with_dir p λ d n. only_fs n.ops (λ o. call_dir p d o.rewinddir_op)
