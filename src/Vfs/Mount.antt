-- ===== src/Vfs/Mount.antt =====
-- File systems and their mounts, os/vfs/vfs_fs.c. The results are codes of `vfs_err_t`.
use os_risc_v.Prelude.{
  ℕ, Bool, true, false, ◌&&◌, Option, none, some, List, [], ◌∷◌, ◌++◌, ◌==◌, has, if◌then◌else◌,
  length,
}
use os_risc_v.Vfs.{
  Addr, FsOps, Inode, InodeOps, FsMap, char_device, block_device, filesystem, unused, M, pure,
  fault, ◌>>=◌, ◌>>◌,
}
use os_risc_v.Vfs.Err
use os_risc_v.Vfs.Inodes.{
  inode_find, mount_inode_find, inode_alloc, set_ops, inode_release, inode_is_busy, begins_with,
  is_filesystem, is_zero,
}
use os_risc_v.Vfs.Names.{call_fs}

module _ {D : Type 0} where
  -- `vfs_fsmap_get`. A read of an entry that was given to `kfree` is a fault.
  unfoldable pub fsmap_loop : List ℕ → List Addr → List (FsMap D) → Option (Option (FsMap D))
  fsmap_loop name freed [] = some none
  fsmap_loop name freed (m ∷ ms) =
      let rest = fsmap_loop name freed ms in
      if has m.addr freed
      then none
      else if (length m.name == length name) && begins_with m.name name
      then some (some m)
      else rest

  unfoldable pub fsmap_get : List ℕ → M D (Option (FsMap D))
  unfolding fsmap_loop
  fsmap_get name s = elim (fsmap_loop name s.freed_maps s.fsmaps) [
    | none ↦ none
    | some m ↦ some (m, s)
  ]

  -- `vfs_fsmap_set`
  unfoldable pub fsmap_set : Addr → List ℕ → FsOps D → M D (Unit {0})
  fsmap_set a name ops s =
      some (tt, record s { fsmaps = s.fsmaps ++ record { addr = a; name = name; ops = ops } ∷ [] })

  unfoldable pub fs_register : Option (List ℕ) → Option (FsOps D) → Option Addr → M D ℕ
  unfolding fsmap_get fsmap_set
  fs_register none ops memory = pure Err.para_invalid
  fs_register (some name) none memory = pure Err.para_invalid
  fs_register (some name) (some ops) memory = do
    found ← fsmap_get name
    elim found [
      | some m ↦ pure Err.fs_already_registered
      | none ↦ elim memory [
        | none ↦ pure Err.out_of_memory
        | some a ↦ do fsmap_set a name ops; pure Err.no_error
      ]
    ]

  -- The entry goes back to `kfree` and stays in the list.
  unfoldable pub fs_unregister : Option (List ℕ) → M D ℕ
  unfolding fsmap_get
  fs_unregister none = pure Err.para_invalid
  fs_unregister (some name) = do
    found ← fsmap_get name
    elim found [
      | none ↦ pure Err.fs_not_registered
      | some m ↦ λ s. some (Err.no_error, record s { freed_maps = m.addr ∷ s.freed_maps })
    ]

  abbrev pub is_device : InodeOps D → Bool
  is_device (char_device _) = true
  is_device (block_device _) = true
  is_device (filesystem _) = false
  is_device unused = false

  -- The end of `vfs_fs_mount`: the driver binds the new inode to the device.
  unfoldable pub bind_fs : Addr → Addr → FsOps D → M D ℕ
  unfolding call_fs
  bind_fs fs dev ops = elim ops.bind_op [
    | none ↦ pure Err.ops_null
    | some op ↦ do
      ret ← call_fs (some (op fs dev))
      pure (if is_zero ret then Err.no_error else Err.ops_failed)
  ]

  -- The inode for a directory that is not taken.
  unfoldable pub mount_new : Option (Inode D) → List ℕ → Addr → FsOps D → Option Addr → M D ℕ
  unfolding bind_fs
  mount_new (some n) dir dev ops memory =
      pure (if is_filesystem n.ops then Err.fs_already_mounted else Err.inode_inavaliable)
  mount_new none dir dev ops memory = do
    inode ← inode_alloc dir memory
    elim inode [
      | none ↦ pure Err.inode_create_failed
      | some a ↦ do set_ops a (filesystem ops); bind_fs a dev ops
    ]

  -- The file system and the device that `vfs_fs_mount` and `vfs_fs_mkfs` look up first.
  unfoldable pub with_fs_device : List ℕ → List ℕ → (FsMap D → Inode D → M D ℕ) → M D ℕ
  unfolding fsmap_get
  with_fs_device device_path fs_name k = do
    found ← fsmap_get fs_name
    elim found [
      | none ↦ pure Err.fs_not_registered
      | some m ↦ λ s. elim (inode_find device_path s.inodes).0 [
        | none ↦ some (Err.device_not_registered, s)
        | some d ↦ if is_device d.ops then k m d s else some (Err.inode_invalid, s)
      ]
    ]

  unfoldable pub fs_mount : List ℕ → List ℕ → List ℕ → Option Addr → M D ℕ
  unfolding with_fs_device mount_new
  fs_mount device_path dir fs_name memory =
      with_fs_device device_path fs_name
        λ m d s. mount_new (mount_inode_find dir s.inodes) dir d.addr m.ops memory s

  -- The end of `vfs_fs_umount`: the driver may refuse.
  unfoldable pub unbind_fs : Addr → FsOps D → M D ℕ
  unfolding call_fs
  unbind_fs a ops = elim ops.unbind_op [
    | none ↦ do inode_release a; pure Err.no_error
    | some op ↦ do
      ret ← call_fs (some (op a))
      if is_zero ret then (do inode_release a; pure Err.no_error) else pure Err.ops_failed
  ]

  -- The tests of `vfs_fs_umount` on the inode of the directory.
  unfoldable pub umount_inode : Inode D → InodeOps D → M D ℕ
  unfolding unbind_fs
  umount_inode n (filesystem ops) =
      if inode_is_busy n then pure Err.inode_busy else unbind_fs n.addr ops
  umount_inode n (char_device _) = pure Err.inode_inavaliable
  umount_inode n (block_device _) = pure Err.inode_inavaliable
  umount_inode n unused = pure Err.inode_inavaliable

  unfoldable pub fs_umount : List ℕ → M D ℕ
  unfolding umount_inode
  fs_umount dir s = elim (mount_inode_find dir s.inodes) [
    | none ↦ some (Err.fs_not_mount, s)
    | some n ↦ umount_inode n n.ops s
  ]

  -- `fs_inode->ops.fs_ops = fsmap->ops`, where `fs_inode` is the pointer given.
  unfoldable pub set_fs_ops : Option Addr → FsOps D → M D (Unit {0})
  set_fs_ops none ops = fault
  set_fs_ops (some a) ops = set_ops a (filesystem ops)

  -- `fs_inode` is null from its declaration on.
  unfoldable pub fs_mkfs : List ℕ → List ℕ → ℕ → ℕ → M D ℕ
  unfolding with_fs_device set_fs_ops call_fs
  fs_mkfs device_path fs_name opt arg = with_fs_device device_path fs_name λ m d. do
    set_fs_ops none m.ops
    elim m.ops.mkfs_op [
      | none ↦ pure Err.ops_null
      | some op ↦ do
        ret ← call_fs (some (op d.addr opt arg))
        pure (if is_zero ret then Err.no_error else Err.ops_failed)
    ]
