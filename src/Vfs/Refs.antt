-- ===== src/Vfs/Refs.antt =====
-- The references to inodes. Every open file of the pool and every open directory refers to an inode,
-- and the count of an inode is to be at least one more than these references, as the list of inodes
-- has one of its own. IsBalanced says by how many it is more, so that no reference is lost or left over.
pub mod Counts
pub mod Effects
pub mod Open
pub mod Close
pub mod Dup
pub mod Directories
pub mod Lifetime
pub mod Umount
use os_risc_v.Prelude.{
  ℕ, zero, suc, ◌+◌, ◌-◌, ◌<◌, ◌≡◌, refl, Bool, true, false, Option, none, some, List, [], ◌∷◌, map,
  ◌==◌, if◌then◌else◌, Distinct, arith,
}
use os_risc_v.Vfs.{Addr, File, Dir, Inode, Vfs}
use os_risc_v.Vfs.Inodes.{inode_at, inode_refs_max}
use os_risc_v.Vfs.Files.{file_open_max}

-- 1 if the pointer is to the inode at `a`, else 0.
abbrev pub points : Option Addr → Addr → ℕ
points none a = 0
points (some b) a = if b == a then 1 else 0

-- The references to `a` from the first `k` entries of the pool, and from the open directories.
abbrev pub count_files : ℕ → Addr → (ℕ → File) → ℕ
count_files zero a files = 0
count_files (suc k) a files = points (files k).inode a + count_files k a files

abbrev pub count_dirs : Addr → List (Addr × Dir) → ℕ
count_dirs a [] = 0
count_dirs a ((p, d) ∷ ds) = points (some d.inode) a + count_dirs a ds

abbrev pub from_files : Addr → (ℕ → File) → ℕ
from_files = count_files file_open_max

module _ {D : Type 0} where
  abbrev pub users : Vfs D → Addr → ℕ
  users s a = from_files a s.files + count_dirs a s.dirs

  -- The count of an inode; an address with no inode counts as 1, so that it may have no users.
  abbrev pub refs_of : Option (Inode D) → ℕ
  refs_of none = 1
  refs_of (some n) = n.refs

  abbrev pub addrs : List (Inode D) → List Addr
  addrs = map (λ n. n.addr)

  pub record IsCounted (s : Vfs D) : Type 0 where
    pub distinct : Distinct (addrs s.inodes)
    pub counted : (a : Addr) → users s a < refs_of (inode_at a s.inodes)

  -- Besides what the files and the directories hold, `rest` references are counted at each address, the
  -- one of the list of inodes among them.
  pub record IsBalanced (rest : Addr → ℕ) (s : Vfs D) : Type 0 where
    pub distinct : Distinct (addrs s.inodes)
    pub held : (a : Addr) → 0 < rest a
    pub balance : (a : Addr) → users s a + rest a ≡ refs_of (inode_at a s.inodes)

  pub balanced-IsCounted : (rest : Addr → ℕ) (s : Vfs D) → IsBalanced rest s → IsCounted s
  balanced-IsCounted rest s b = record {
    distinct = b.distinct;
    counted = λ a. let e = b.balance a in let h = b.held a in omega (arith, e, h);
  }

  abbrev pub spare : Vfs D → Addr → ℕ
  spare s a = refs_of (inode_at a s.inodes) - users s a

  pub counted-IsBalanced : (s : Vfs D) → IsCounted s → IsBalanced (spare s) s
  counted-IsBalanced s c = record {
    distinct = c.distinct;
    held = λ a. let l = c.counted a in omega (arith, l);
    balance = λ a. let l = c.counted a in omega (arith, l);
  }

  -- No count has reached the limit at which `vfs_inode_refinc` stops counting.
  abbrev pub Unsaturated : Vfs D → Type 0
  Unsaturated s = (a : Addr) (n : Inode D) → inode_at a s.inodes ≡ some n → n.refs < inode_refs_max

  -- The run ends with no fault, and its result and state satisfy `P`.
  abbrev pub Ends : {A : Type 0} → (A → Vfs D → Type 0) → Option (A × Vfs D) → Type 0
  Ends P none = ⊥
  Ends P (some (a, t)) = P a t
