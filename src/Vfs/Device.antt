-- ===== src/Vfs/Device.antt =====
-- The registration of devices, os/vfs/vfs_device.c. The result is a code of `vfs_err_t`; `memory` is
-- what `kmalloc` returns.
use os_risc_v.Prelude.{ℕ, Bool, true, false, Option, none, some, List, ltb, if◌then◌else◌, length}
use os_risc_v.Vfs.{
  Addr, ChrdevOps, Inode, InodeOps, char_device, block_device, M, pure, ◌>>=◌, ◌>>◌,
}
use os_risc_v.Vfs.Err
use os_risc_v.Vfs.Inodes.{
  inode_find, mount_inode_find, inode_alloc, set_ops, inode_free, inode_is_busy,
}
use os_risc_v.Vfs.Files.{path_max}

module _ {D : Type 0} where
  abbrev pub is_block : InodeOps D → Bool
  is_block (block_device _) = true
  is_block _ = false

  abbrev pub is_char : InodeOps D → Bool
  is_char (char_device _) = true
  is_char _ = false

  -- The new inode of a device.
  unfoldable pub create_device : List ℕ → InodeOps D → Option Addr → M D ℕ
  create_device name ops memory = do
    inode ← inode_alloc name memory
    elim inode [
      | none ↦ pure Err.inode_create_failed
      | some a ↦ do set_ops a ops; pure Err.no_error
    ]

  -- An inode of the name is refused, with a code that depends on its type.
  unfoldable pub register_new :
      Option (Inode D) → (InodeOps D → Bool) → List ℕ → InodeOps D → Option Addr → M D ℕ
  unfolding create_device
  register_new none is_kind name ops memory = create_device name ops memory
  register_new (some n) is_kind name ops memory =
      pure (if is_kind n.ops then Err.device_already_registered else Err.inode_inavaliable)

  unfoldable pub block_device_register : List ℕ → ℕ → Option Addr → M D ℕ
  unfolding register_new
  block_device_register name ops memory s =
      if ltb path_max (length name)
      then some (Err.path_too_long, s)
      else register_new (mount_inode_find name s.inodes) is_block name (block_device ops) memory s

  unfoldable pub char_device_register : List ℕ → ChrdevOps D → Option Addr → M D ℕ
  unfolding register_new
  char_device_register name ops memory s =
      if ltb path_max (length name)
      then some (Err.path_too_long, s)
      else register_new (inode_find name s.inodes).0 is_char name (char_device ops) memory s

  -- The two functions that take a device away differ in the type that they ask for.
  unfoldable pub unregister : (InodeOps D → Bool) → List ℕ → M D ℕ
  unregister is_kind name s =
      if ltb path_max (length name)
      then some (Err.path_too_long, s)
      else elim (inode_find name s.inodes).0 [
        | none ↦ some (Err.device_not_registered, s)
        | some n ↦
            if is_kind n.ops
            then if inode_is_busy n
              then some (Err.inode_busy, s)
              else (do inode_free n.addr; pure Err.no_error) s
            else some (Err.inode_invalid, s)
      ]

  unfoldable pub block_device_unregister : List ℕ → M D ℕ
  unfolding unregister
  block_device_unregister = unregister is_block

  unfoldable pub char_device_unregister : List ℕ → M D ℕ
  unfolding unregister
  char_device_unregister = unregister is_char
