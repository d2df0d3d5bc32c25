-- ===== src/Vfs.antt =====
-- The virtual file system, os/vfs: its types, its state and the order of its effects.
-- A driver (the `ops` tables of a file system or device) is a parameter: each of its functions is
-- an argument that reads the driver state `D` and the file it is called on, and returns its result,
-- the fields of the file that drivers write, and the new driver state. A null entry is `none`.
-- A `char *` is its bytes. An `int` is an integer, `vfs_off_t` and flags are numbers.
pub mod Err
pub mod Inodes
pub mod Files
pub mod Calls
pub mod Open
pub mod Dirs
pub mod Names
pub mod Device
pub mod Mount
pub mod Search
mod Find
mod Meet
pub mod Refs
mod Dangling
mod Devices
pub mod Pool
mod Tests
use os_risc_v.Prelude.{
  ℕ, zero, suc, ◌+◌, ◌-◌, ◌%◌, ◌^◌, Bool, true, false, Option, none, some, List, [], ◌∷◌, ℤ, pos,
  negsuc, ◌==◌, ltb, if◌then◌else◌,
}

abbrev pub Addr : Type 0
Addr = ℕ

-- The fields of a `vfs_file_t` or `vfs_dir_t` that drivers write.
pub record Hook : Type 0 where
  pub flags : ℕ
  pub pos : ℕ
  pub private : ℕ

-- `vfs_file_t`; `inode` is `none` for a null pointer, which marks a free entry of the pool.
pub record File : Type 0 where
  pub flags : ℕ
  pub pos : ℕ
  pub inode : Option Addr
  pub private : ℕ
  pub relative_path : List ℕ

-- `vfs_dir_t`, less the buffer of its entry.
pub record Dir : Type 0 where
  pub pos : ℕ
  pub inode : Addr
  pub private : ℕ
  pub relative_path : List ℕ

abbrev pub FileOp : Type 0 → Type 0
FileOp D = File → D → ℤ × Hook × D

-- `read` and `write` return `uint64`.
abbrev pub MoveOp : Type 0 → Type 0
MoveOp D = ℕ → ℕ → File → D → ℕ × Hook × D

abbrev pub DirOp : Type 0 → Type 0
DirOp D = Dir → D → ℤ × Hook × D

abbrev pub Call : Type 0 → Type 0
Call D = D → ℤ × D

-- `vfs_chrdev_ops_t`, the entries that the VFS calls.
pub record ChrdevOps (D : Type 0) : Type 0 where
  pub open_op : Option (FileOp D)
  pub close_op : Option (FileOp D)
  pub read_op : Option (MoveOp D)
  pub write_op : Option (MoveOp D)
  pub lseek_op : Option (ℕ → ℕ → FileOp D)
  pub ioctl_op : Option (ℕ → ℕ → FileOp D)

-- `vfs_fs_ops_t`
pub record FsOps (D : Type 0) : Type 0 where
  pub open_op : Option (List ℕ → ℕ → FileOp D)
  pub close_op : Option (FileOp D)
  pub read_op : Option (MoveOp D)
  pub write_op : Option (MoveOp D)
  pub lseek_op : Option (ℕ → ℕ → FileOp D)
  pub ioctl_op : Option (ℕ → ℕ → FileOp D)
  pub sync_op : Option (FileOp D)
  pub dup_op : Option (File → FileOp D)
  pub fstat_op : Option (ℕ → FileOp D)
  pub truncate_op : Option (ℕ → FileOp D)
  pub opendir_op : Option (List ℕ → DirOp D)
  pub closedir_op : Option (DirOp D)
  pub readdir_op : Option (DirOp D)
  pub rewinddir_op : Option (DirOp D)
  pub bind_op : Option (Addr → Addr → Call D)
  pub unbind_op : Option (Addr → Call D)
  pub statfs_op : Option (Addr → ℕ → Call D)
  pub link_op : Option (Addr → List ℕ → List ℕ → Call D)
  pub unlink_op : Option (Addr → List ℕ → Call D)
  pub mkdir_op : Option (Addr → List ℕ → Call D)
  pub rmdir_op : Option (Addr → List ℕ → Call D)
  pub rename_op : Option (Addr → List ℕ → List ℕ → Call D)
  pub stat_op : Option (Addr → List ℕ → ℕ → Call D)
  pub mkfs_op : Option (Addr → ℕ → ℕ → Call D)

-- The `type` of an inode with the member of the union `ops` that goes with it. The VFS calls no
-- function of a block device.
pub data InodeOps (D : Type 0) : Type 0 where
  char_device : ChrdevOps D → InodeOps D
  block_device : ℕ → InodeOps D
  filesystem : FsOps D → InodeOps D
  unused : InodeOps D

-- `vfs_inode_t` at its address, and `vfs_fsmap_t`.
pub record Inode (D : Type 0) : Type 0 where
  pub addr : Addr
  pub ops : InodeOps D
  pub refs : ℕ
  pub name : List ℕ

pub record FsMap (D : Type 0) : Type 0 where
  pub addr : Addr
  pub name : List ℕ
  pub ops : FsOps D

-- The two lists, the pool of files, the directories that are open, the file-system entries that
-- have been given back to `kfree`, and the state of the drivers.
pub record Vfs (D : Type 0) : Type 0 where
  pub inodes : List (Inode D)
  pub fsmaps : List (FsMap D)
  pub freed_maps : List Addr
  pub files : ℕ → File
  pub dirs : List (Addr × Dir)
  pub drivers : D

-- A computation on the state; `none` is a fault, the use of a null or dangling pointer.
abbrev pub M : Type 0 → Type 0 → Type 0
M D A = Vfs D → Option (A × Vfs D)

module _ {D : Type 0} where
  abbrev pub pure : {A : Type 0} → A → M D A
  pure a s = some (a, s)

  abbrev pub fault : {A : Type 0} → M D A
  fault s = none

  infixl 5 ◌>>=◌ ◌>>◌
  abbrev pub ◌>>=◌ : {A B : Type 0} → M D A → (A → M D B) → M D B
  ◌>>=◌ m f s = elim (m s) [ none ↦ none | some (a, t) ↦ f a t ]

  abbrev pub ◌>>◌ : {B : Type 0} → M D (Unit {0}) → M D B → M D B
  m >> k = m >>= λ _. k
