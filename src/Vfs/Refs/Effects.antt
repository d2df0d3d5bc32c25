-- ===== src/Vfs/Refs/Effects.antt =====
-- The functions of vfs_inode.c and vfs_file.c on an inode that is in the list.
use os_risc_v.Prelude.{ℕ, ◌-◌, ◌<◌, ◌≡◌, true, false, none, some, arith, ◌==◌}
use os_risc_v.Vfs.{Addr, File, Inode, Vfs, ◌>>=◌}
use os_risc_v.Vfs.Inodes.{
  inode_at, deref, inode_refinc, inode_release, refs_up, refs_down, with_refs, update_inode,
  remove_inode,
}
use os_risc_v.Vfs.Files.{file_open_max, set_file, file_free}

abbrev pub freed : File → File
freed f = record f { inode = none; pos = 0 }

module _ {D : Type 0} where
  pub file_free_lem :
      (i : ℕ) (s : Vfs D)
      → i < file_open_max
      → file_free i s ≡ some (tt, record s { files = set_file i (freed (s.files i)) s.files })
  unfolding file_free
  file_free_lem i s l = ground arith

  pub deref_lem :
      (a : Addr) (n : Inode D) (s : Vfs D) → inode_at a s.inodes ≡ some n → deref a s ≡ some (n, s)
  unfolding deref
  deref_lem a n s e = rw (e, deref)

  pub inode_refinc_lem :
      (a : Addr) (n : Inode D) (s : Vfs D)
      → inode_at a s.inodes ≡ some n
      → inode_refinc a s ≡ some (tt, record s { inodes = update_inode a refs_up s.inodes })
  unfolding inode_refinc
  inode_refinc_lem a n s e = rw (deref_lem a n s e, ◌>>=◌)

  pub inode_release_many :
      (a : Addr) (n : Inode D) (s : Vfs D)
      → inode_at a s.inodes ≡ some n
      → 1 < n.refs
      → inode_release a s
        ≡ some (tt, record s { inodes = update_inode a (with_refs (n.refs - 1)) s.inodes })
  unfolding inode_release
  inode_release_many a n s e l =
      let z : (n.refs == 0) ≡ false = ground arith in
      let z' : (n.refs - 1 == 0) ≡ false = ground arith in rw (deref_lem a n s e, ◌>>=◌, z, z')

  pub inode_release_last :
      (a : Addr) (n : Inode D) (s : Vfs D)
      → inode_at a s.inodes ≡ some n
      → n.refs ≡ 1
      → inode_release a s ≡ some (tt, record s { inodes = remove_inode a s.inodes })
  unfolding inode_release
  inode_release_last a n s e l =
      let z : (refs_down n.refs == 0) ≡ true = ground arith in rw (deref_lem a n s e, ◌>>=◌, z)
