-- ===== src/Vfs/Refs/Directories.antt =====
-- The references of open directories, and `vfs_closedir` of os/vfs/vfs.c.
use os_risc_v.Prelude.{
  ◌-◌, ◌<◌, ◌≡◌, refl, ◌∙◌, inl, inr, Option, none, some, List, [], ◌∷◌, ℤ, arith, ◌==◌, Bool-cases,
}
use os_risc_v.Vfs.{
  Addr, Dir, DirOp, Inode, InodeOps, char_device, block_device, filesystem, unused, Vfs, ◌>>=◌,
  ◌>>◌,
}
use os_risc_v.Vfs.Inodes.{inode_at, with_refs, update_inode, is_zero}
use os_risc_v.Vfs.Calls.{only_fs}
use os_risc_v.Vfs.Dirs.{
  dir_at, set_dir, remove_dir, after_dir_op, call_dir, with_dir, finish_closedir, vfs_closedir,
}
use os_risc_v.Vfs.Refs.{points, count_dirs, from_files, spare, IsCounted, Ends}
use os_risc_v.Vfs.Refs.Effects.{deref_lem, inode_release_many}
use os_risc_v.Vfs.Refs.Counts.{count_dirs-set, count_dirs-remove, inode_at-update, addrs-update}
use os_risc_v.Vfs.Refs.Close.{points_self, refs_of-some, released}

dir_at-set :
    (p : Addr) (d e : Dir) (ds : List (Addr × Dir))
    → dir_at p ds ≡ some e
    → dir_at p (set_dir p d ds) ≡ some d
unfolding dir_at set_dir
dir_at-set p d e [] h = absurd (cc)
dir_at-set p d e ((q, c) ∷ ds) h = ground (arith, dir_at-set p d e ds)

module _ {D : Type 0} where
  -- The inode of an open directory is in the list, with a count of at least 2.
  dir_inode :
      (p : Addr) (d : Dir) (s : Vfs D)
      → dir_at p s.dirs ≡ some d
      → IsCounted s
      → (n : Inode D) × (inode_at d.inode s.inodes ≡ some n) × (1 < n.refs)
  dir_inode p d s e c =
      let one = points_self (some d.inode) d.inode refl in
      let sum = count_dirs-remove p d s.dirs d.inode e in
      let lt = c.counted d.inode in
      refs_of-some (inode_at d.inode s.inodes) (omega (arith, one, sum, lt))

  set_dir-IsCounted :
      (p : Addr) (d e : Dir) (s : Vfs D) (drv : D)
      → dir_at p s.dirs ≡ some e
      → d.inode ≡ e.inode
      → IsCounted s
      → IsCounted (record s { dirs = set_dir p d s.dirs; drivers = drv })
  set_dir-IsCounted p d e s drv at same c = record {
    distinct = c.distinct;
    counted = λ b.
        let q : points (some d.inode) b ≡ points (some e.inode) b = rw same refl in
        omega (arith, c.counted b, q, count_dirs-set p d e s.dirs b at);
  }

  closed-IsCounted :
      (p : Addr) (d : Dir) (n : Inode D) (s : Vfs D)
      → dir_at p s.dirs ≡ some d
      → inode_at d.inode s.inodes ≡ some n
      → 1 < n.refs
      → IsCounted s
      → IsCounted (record s {
        inodes = update_inode d.inode (with_refs (n.refs - 1)) s.inodes;
        dirs = remove_dir p s.dirs;
      })
  closed-IsCounted p d n s e at u c = record {
    distinct = rw (addrs-update d.inode (with_refs (n.refs - 1)) s.inodes (λ m. refl)) c.distinct;
    counted = λ b.
        let r =
          released d.inode b n (some d.inode) (inode_at b s.inodes)
            (inode_at b (update_inode d.inode (with_refs (n.refs - 1)) s.inodes))
            (count_dirs b s.dirs) (count_dirs b (remove_dir p s.dirs)) (from_files b s.files)
            (spare s b) refl u (λ k. rw k at) (let l = c.counted b in omega (arith, l))
            (omega (arith, count_dirs-remove p d s.dirs b e))
            (inode_at-update d.inode b (with_refs (n.refs - 1)) s.inodes (λ m. refl)
              ∙ rw at refl) in
        let l = c.counted b in omega (arith, r, l);
  }

  finish_closedir-IsCounted :
      (p a : Addr) (ret : ℤ) (d : Dir) (s : Vfs D)
      → dir_at p s.dirs ≡ some d
      → a ≡ d.inode
      → IsCounted s
      → Ends (λ r t. IsCounted t) (finish_closedir p a ret s)
  unfolding finish_closedir
  finish_closedir-IsCounted p a ret d s e same c = elim (Bool-cases (is_zero ret)) [
    | inl z ↦
        let (n, at, u) = dir_inode p d s e c in
        rw (z, same, inode_release_many d.inode n s at u, ◌>>◌, ◌>>=◌)
          (closed-IsCounted p d n s e at u c)
    | inr z ↦ rw z c
  ]

  closedir_with-IsCounted :
      (p a : Addr) (op : Option (DirOp D)) (d : Dir) (s : Vfs D)
      → dir_at p s.dirs ≡ some d
      → a ≡ d.inode
      → IsCounted s
      → Ends (λ r t. IsCounted t) ((call_dir p d op >>= finish_closedir p a) s)
  unfolding call_dir
  closedir_with-IsCounted p a none d s e same c = finish_closedir-IsCounted p a _ d s e same c
  closedir_with-IsCounted p a (some op) d s e same c =
      let (ret, hook, drv) = op d s.drivers in
      let d' : Dir = after_dir_op d hook in
      let t : Vfs D = record s { dirs = set_dir p d' s.dirs; drivers = drv } in
      finish_closedir-IsCounted p a ret d' t (dir_at-set p d' d s.dirs e) same
        (set_dir-IsCounted p d' d s drv e refl c)

  only_fs-IsCounted :
      (p a : Addr) (ops : InodeOps D) (d : Dir) (s : Vfs D)
      → dir_at p s.dirs ≡ some d
      → a ≡ d.inode
      → IsCounted s
      → Ends
          (λ r t. IsCounted t)
          (only_fs ops (λ o. call_dir p d o.closedir_op >>= finish_closedir p a) s)
  only_fs-IsCounted p a (filesystem o) d s e same c =
      closedir_with-IsCounted p a o.closedir_op d s e same c
  only_fs-IsCounted p a (char_device o) d s e same c = c
  only_fs-IsCounted p a (block_device k) d s e same c = c
  only_fs-IsCounted p a unused d s e same c = c

  inode_at-addr :
      (a : Addr) (n : Inode D) (ns : List (Inode D)) → inode_at a ns ≡ some n → n.addr ≡ a
  unfolding inode_at
  inode_at-addr a n [] h = absurd (cc)
  inode_at-addr a n (m ∷ ms) h = elim (Bool-cases (m.addr == a)) [
    | inl e ↦ let q : some m ≡ some n = (rw e refl) ∙ h in ground (arith, q)
    | inr e ↦ ground (arith, h, inode_at-addr a n ms)
  ]

  -- From counts that are right, `vfs_closedir` on an open directory ends without a fault and leaves
  -- counts that are right.
  pub vfs_closedir-IsCounted :
      (p : Addr) (d : Dir) (s : Vfs D)
      → dir_at p s.dirs ≡ some d
      → IsCounted s
      → Ends (λ r t. IsCounted t) (vfs_closedir p s)
  unfolding vfs_closedir with_dir
  vfs_closedir-IsCounted p d s e c =
      let (n, at, u) = dir_inode p d s e c in
      rw (e, vfs_closedir, with_dir, deref_lem d.inode n s at, ◌>>=◌)
        (only_fs-IsCounted p n.addr n.ops d s e (inode_at-addr d.inode n s.inodes at) c)
