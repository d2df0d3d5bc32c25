-- ===== src/Paths.antt =====
-- Paths of system calls, add_root, calc_abspath and sys_getcwd of os/kernel/fs.c. A string is the
-- sequence of its bytes before the NUL; what `calc_abspath` leaves in the buffer of 32 bytes where it
-- fails, which no caller reads, is not in this part.
mod Resolve
mod Tests
use os_risc_v.Prelude.{
  ℕ, ◌+◌, ◌-◌, ◌&&◌, Bool, true, false, Option, none, some, List, [], ◌∷◌, ◌++◌, length, ◌==◌, ltb,
  leb, if◌then◌else◌,
}

-- VFS_PATH_MAX of os/vfs/include/vfs_file.h
abbrev pub vfs_path_max : ℕ
vfs_path_max = 32

abbrev pub slash : ℕ
slash = 47

abbrev pub dot : ℕ
dot = 46

-- `strncmp` of a string with all of another
unfoldable pub starts_with : List ℕ → List ℕ → Bool
starts_with [] path = true
starts_with (c ∷ cs) [] = false
starts_with (c ∷ cs) (d ∷ ds) = c == d && starts_with cs ds

-- "/var" and "/root"
abbrev pub var : List ℕ
var = 47 ∷ 118 ∷ 97 ∷ 114 ∷ []

abbrev pub root : List ℕ
root = 47 ∷ 114 ∷ 111 ∷ 111 ∷ 116 ∷ []

unfoldable pub add_root : List ℕ → List ℕ
unfolding starts_with
add_root path = if starts_with var path then root ++ path else path

-- `dir->inode->name` and `dir->relative_path`
pub record Place : Type 0 where
  pub name : List ℕ
  pub relative_path : List ℕ

-- A path relative to `dir`. -1 is `none`.
unfoldable pub relative_abspath : Place → List ℕ → Option (ℕ × List ℕ)
unfolding starts_with add_root
relative_abspath dir path =
    let len_filename = length path in
    let len_inode = length dir.name in
    let len_relative = length dir.relative_path in
    let here = dir.name ++ dir.relative_path in
    if leb vfs_path_max (len_inode + len_relative)
    then none
    else if leb 2 len_filename && starts_with (dot ∷ slash ∷ []) path
    then if leb vfs_path_max (len_filename - 1 + len_inode + len_relative)
      then none
      else some (0, add_root (here ++ (elim path [ c ∷ cs ↦ cs | [] ↦ [] ])))
    else if len_filename == 1 && starts_with (dot ∷ []) path
    then some (1, here)
    else if leb vfs_path_max (len_filename + len_inode + len_relative + 1)
    then none
    else some (0, add_root (here ++ slash ∷ path))

-- The value returned, -1 as `none`, and the string in the buffer.
unfoldable pub calc_abspath : Option Place → List ℕ → Option (ℕ × List ℕ)
unfolding starts_with add_root relative_abspath
calc_abspath dir path =
    let relative : Option (ℕ × List ℕ) = elim dir [
      | none ↦ none
      | some d ↦ relative_abspath d path
    ] in
    if starts_with (slash ∷ []) path
    then if leb vfs_path_max (length path) then none else some (0, add_root path)
    else relative

-- The string left in the buffer, for a size of at least 2; NULL is `none`. `behind` is the string from
-- the second byte of the buffer on, once the last byte is 0.
unfoldable pub sys_getcwd : ℕ → List ℕ → Place → Option (List ℕ)
sys_getcwd size behind cwd =
    let whole = cwd.name ++ cwd.relative_path in
    if leb size 1
    then none
    else if ltb (size - 1) (length cwd.name)
    then some cwd.name
    else some (elim whole [ [] ↦ slash ∷ behind | c ∷ cs ↦ c ∷ cs ])
