-- ===== src/Vfs/Tests.antt =====
-- The virtual file system with one console, one file system and one device.
use os_risc_v.Prelude.{
  ℕ, ◌≡◌, refl, ◌↔◌, true, none, some, List, [], ◌∷◌, pos, arith, ◌==◌, if◌then◌else◌,
}
use os_risc_v.CString.Compare.{NonZero, compare_text}
use os_risc_v.Vfs.{File, FileOp, Dir, ChrdevOps, FsOps, Inode, char_device, filesystem, FsMap, Vfs}
use os_risc_v.Vfs.Err
use os_risc_v.Vfs.Inodes.{
  begins_with, match_inode, same, below, is_filesystem, inode_find, inode_at,
}
use os_risc_v.Vfs.Files.{fd2file}
use os_risc_v.Vfs.Calls.{vfs_close}
use os_risc_v.Vfs.Open.{vfs_open}
use os_risc_v.Vfs.Dirs.{dir_at}
use os_risc_v.Vfs.Device.{char_device_register, char_device_unregister}
use os_risc_v.Vfs.Mount.{fsmap_get, fs_unregister}
use os_risc_v.Vfs.Search.{All}
use os_risc_v.Vfs.Find.{Named, inode_find-Named}
use os_risc_v.Vfs.Meet.{is_set, IsUnder, match_inode_iff}
use os_risc_v.Vfs.Devices.{new_inode, char_device_unregister-register}
use os_risc_v.Vfs.Refs.{IsCounted, IsBalanced, Unsaturated, Ends}
use os_risc_v.Vfs.Refs.Open.{vfs_open-IsBalanced}
use os_risc_v.Vfs.Refs.Close.{vfs_close-IsBalanced}

-- A driver function that succeeds and leaves the file as it is.
abbrev succeed : FileOp (Unit {0})
succeed f d = (pos 0, record { flags = f.flags; pos = f.pos; private = f.private }, d)

abbrev console_ops : ChrdevOps (Unit {0})
console_ops = record {
  open_op = some succeed;
  close_op = some succeed;
  read_op = none;
  write_op = none;
  lseek_op = none;
  ioctl_op = none;
}

abbrev disk_ops : FsOps (Unit {0})
disk_ops = record {
  open_op = some (λ path flags. succeed);
  close_op = some succeed;
  read_op = none;
  write_op = none;
  lseek_op = none;
  ioctl_op = none;
  sync_op = none;
  dup_op = some (λ old. succeed);
  fstat_op = none;
  truncate_op = none;
  opendir_op = none;
  closedir_op =
      some (λ d drv. (pos 0, record { flags = 0; pos = d.pos; private = d.private }, drv));
  readdir_op = none;
  rewinddir_op = none;
  bind_op = none;
  unbind_op = none;
  statfs_op = none;
  link_op = none;
  unlink_op = none;
  mkdir_op = none;
  rmdir_op = none;
  rename_op = none;
  stat_op = none;
  mkfs_op = none;
}

-- "/c" and "/d".
abbrev console_name : List ℕ
console_name = b'/' ∷ b'c' ∷ []

abbrev disk_name : List ℕ
disk_name = b'/' ∷ b'd' ∷ []

abbrev file_name : List ℕ
file_name = b'/' ∷ b'd' ∷ b'/' ∷ b'f' ∷ []

abbrev console : Inode (Unit {0})
console = record { addr = 100; ops = char_device console_ops; refs = 1; name = console_name }

-- The disk has one file and one directory open.
abbrev disk : Inode (Unit {0})
disk = record { addr = 200; ops = filesystem disk_ops; refs = 3; name = disk_name }

abbrev blank : File
blank = record { flags = 0; pos = 0; inode = none; private = 0; relative_path = [] }

abbrev on_disk : File
on_disk = record blank { inode = some 200 }

abbrev folder : Dir
folder = record { pos = 0; inode = 200; private = 0; relative_path = [] }

abbrev ext : FsMap (Unit {0})
ext = record { addr = 900; name = disk_name; ops = disk_ops }

abbrev running : Vfs (Unit {0})
running = record {
  inodes = console ∷ disk ∷ [];
  fsmaps = ext ∷ [];
  freed_maps = [];
  files = λ k. if k == 0 then on_disk else blank;
  dirs = (300, folder) ∷ [];
  drivers = tt;
}

-- The references besides: the one of the list.
abbrev list_own : ℕ → ℕ
list_own a = 1

running-IsBalanced : IsBalanced list_own running
unfolding inode_at
running-IsBalanced = record {
  distinct = (refl, (refl, tt));
  held = λ a. ground arith;
  balance = λ a. ground arith;
}

running-Unsaturated : Unsaturated running
unfolding inode_at
running-Unsaturated a n e = ground arith

vfs_open-IsBalanced_example :
    Ends
      (λ r t. IsBalanced list_own t)
      (vfs_open (record { before = 0; bytes = file_name }) 0 running)
vfs_open-IsBalanced_example =
    vfs_open-IsBalanced list_own (record { before = 0; bytes = file_name }) 0 running
      running-IsBalanced running-Unsaturated

vfs_close-IsBalanced_example : Ends (λ r t. IsBalanced list_own t) (vfs_close (pos 0) running)
vfs_close-IsBalanced_example = vfs_close-IsBalanced list_own (pos 0) running running-IsBalanced

zero-fd : fd2file (pos 0) ≡ some 0
unfolding fd2file
zero-fd = refl

one-fd : fd2file (pos 1) ≡ some 1
unfolding fd2file
one-fd = refl

folder_at : dir_at 300 running.dirs ≡ some folder
unfolding dir_at
folder_at = refl

file-NonZero : NonZero file_name
file-NonZero = (omega arith, (omega arith, (omega arith, (omega arith, tt))))

disk-NonZero : NonZero disk_name
disk-NonZero = (omega arith, (omega arith, tt))

inodes-NonZero : All file_name (λ n. NonZero n.name) running.inodes
inodes-NonZero = omega arith

inode_find-Named_example : Named file_name running.inodes (inode_find file_name running.inodes).0
inode_find-Named_example = inode_find-Named file_name running.inodes file-NonZero inodes-NonZero

match_inode_iff_example :
    ((match_inode disk.ops disk_name file_name ≡ same)
      ↔ ((is_set disk.ops ≡ true) × (file_name ≡ disk_name)))
    × ((match_inode disk.ops disk_name file_name ≡ below)
        ↔ ((is_filesystem disk.ops ≡ true) × IsUnder disk_name file_name))
match_inode_iff_example = match_inode_iff disk.ops disk_name file_name disk-NonZero file-NonZero

-- A file system mounted at "/d/f", and a path below it.
abbrev inner : Inode (Unit {0})
inner = record { addr = 400; ops = filesystem disk_ops; refs = 1; name = file_name }

abbrev deep_name : List ℕ
deep_name = b'/' ∷ b'd' ∷ b'/' ∷ b'f' ∷ b'/' ∷ b'g' ∷ []

inner-below : match_inode inner.ops inner.name deep_name ≡ below
unfolding match_inode begins_with compare_text
inner-below = refl

disk-below : match_inode disk.ops disk.name deep_name ≡ below
unfolding match_inode begins_with compare_text
disk-below = refl

ext-found : fsmap_get disk_name running ≡ some (some ext, running)
unfolding fsmap_get begins_with compare_text
ext-found = refl

console-found : (inode_find console_name running.inodes).0 ≡ some console
unfolding inode_find match_inode begins_with compare_text
console-found = refl

abbrev unregistered : Vfs (Unit {0})
unregistered = record running { freed_maps = 900 ∷ [] }

ext-unregistered : fs_unregister (some disk_name) running ≡ some (Err.no_error, unregistered)
unfolding fs_unregister begins_with compare_text
ext-unregistered = refl

-- "/u", which no inode meets.
abbrev serial_name : List ℕ
serial_name = b'/' ∷ b'u' ∷ []

serial-free : (inode_find serial_name running.inodes).0 ≡ none
unfolding inode_find match_inode begins_with compare_text
serial-free = refl

char_device_unregister-register_example :
    (t : Vfs (Unit {0})) × (char_device_register serial_name console_ops (some 500) running
      ≡ some (Err.no_error, t))
    × ((inode_find serial_name t.inodes).0 ≡ some (new_inode 500 console_ops serial_name))
    × (char_device_unregister serial_name t ≡ some (Err.no_error, running))
char_device_unregister-register_example =
    char_device_unregister-register serial_name console_ops 500 running
      (omega arith, (omega arith, tt)) (omega arith) serial-free refl

-- The disk with no file and no directory open.
abbrev idle : Vfs (Unit {0})
idle = record running {
  inodes = console ∷ record disk { refs = 1 } ∷ [];
  files = λ k. blank;
  dirs = [];
}

idle-IsCounted : IsCounted idle
unfolding inode_at
idle-IsCounted = record { distinct = (refl, (refl, tt)); counted = λ a. ground arith }
