-- ===== src/Vfs/Err.antt =====
-- The codes of os/vfs/include/vfs_err.h. Calls on files return them negated.
use os_risc_v.Prelude.{ℕ}

abbrev pub no_error : ℕ
no_error = 0

abbrev pub buffer_null : ℕ
buffer_null = 1

abbrev pub device_not_registered : ℕ
device_not_registered = 2

abbrev pub device_already_registered : ℕ
device_already_registered = 3

abbrev pub file_no_available : ℕ
file_no_available = 4

abbrev pub file_not_open : ℕ
file_not_open = 5

abbrev pub fs_already_mounted : ℕ
fs_already_mounted = 6

abbrev pub fs_already_registered : ℕ
fs_already_registered = 7

abbrev pub fs_not_registered : ℕ
fs_not_registered = 8

abbrev pub fs_not_mount : ℕ
fs_not_mount = 9

abbrev pub ops_null : ℕ
ops_null = 10

abbrev pub ops_failed : ℕ
ops_failed = 11

abbrev pub inode_name_too_long : ℕ
inode_name_too_long = 12

abbrev pub inode_create_failed : ℕ
inode_create_failed = 13

abbrev pub inode_not_found : ℕ
inode_not_found = 14

abbrev pub inode_invalid : ℕ
inode_invalid = 15

abbrev pub inode_busy : ℕ
inode_busy = 16

abbrev pub inode_inavaliable : ℕ
inode_inavaliable = 17

abbrev pub open_dir : ℕ
open_dir = 18

abbrev pub out_of_memory : ℕ
out_of_memory = 19

abbrev pub para_invalid : ℕ
para_invalid = 20

abbrev pub path_too_long : ℕ
path_too_long = 21
