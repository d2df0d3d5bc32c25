-- ===== src/Vfs/Refs/Close.antt =====
-- The references to inodes under `vfs_close` of os/vfs/vfs.c.
use os_risc_v.Prelude.{
  ℕ, ◌+◌, ◌-◌, ◌<◌, ◌≡◌, refl, sym, ap, ◌∙◌, inl, inr, Option, none, some, ℤ, arith, ◌==◌, false,
  if◌then◌else◌, Bool-cases, Option-cases,
}
use os_risc_v.Vfs.{
  Addr, File, FileOp, Inode, InodeOps, char_device, block_device, filesystem, unused, Vfs, ◌>>=◌,
  ◌>>◌,
}
use os_risc_v.Vfs.Inodes.{inode_at, with_refs, update_inode, is_zero}
use os_risc_v.Vfs.Files.{file_open_max, set_file, fd2file}
use os_risc_v.Vfs.Calls.{call_file, after_op, with_file, by_type, finish_close, vfs_close}
use os_risc_v.Vfs.Pool.{fd2file-file2fd}
use os_risc_v.Vfs.Refs.{
  points, count_dirs, from_files, refs_of, IsCounted, IsBalanced, balanced-IsCounted, Ends,
}
use os_risc_v.Vfs.Refs.Effects.{freed, file_free_lem, deref_lem, inode_release_many}
use os_risc_v.Vfs.Refs.Counts.{count_files-set, count_files-le, inode_at-update, addrs-update}

pub points_self : (o : Option Addr) (a : Addr) → o ≡ some a → points o a ≡ 1
points_self o a e = ground arith

points_other : (o : Option Addr) (a b : Addr) → o ≡ some a → (b == a) ≡ false → points o b ≡ 0
points_other o a b e n = ground (arith, e)

module _ {D : Type 0} where
  pub refs_of-some :
      (o : Option (Inode D)) → 1 < refs_of o → (n : Inode D) × (o ≡ some n) × (1 < n.refs)
  refs_of-some none l = absurd (omega arith)
  refs_of-some (some n) l = (n, refl, l)

  -- The inode of an open file is in the list, with a count of at least 2.
  pub used_inode :
      (i : ℕ) (a : Addr) (s : Vfs D)
      → i < file_open_max
      → (s.files i).inode ≡ some a
      → IsCounted s
      → (n : Inode D) × (inode_at a s.inodes ≡ some n) × (1 < n.refs)
  used_inode i a s l own c =
      let one = points_self (s.files i).inode a own in
      let le = count_files-le file_open_max i s.files a l in
      let lt = c.counted a in refs_of-some (inode_at a s.inodes) (omega (arith, one, le, lt))

  -- One reference less at `a`, and one entry less that refers to it.
  pub released :
      (a b : Addr) (n : Inode D) (own : Option Addr) (o o' : Option (Inode D)) (u u' v w : ℕ)
      → own ≡ some a
      → 1 < n.refs
      → (b ≡ a → o ≡ some n)
      → u + v + w ≡ refs_of o
      → u' + points own b ≡ u + 0
      → o' ≡ (if b == a then some (with_refs (n.refs - 1) n) else o)
      → u' + v + w ≡ refs_of o'
  released a b n own o o' u u' v w e l at c f g = elim (Bool-cases (b == a)) [
    | inl k ↦
        let ab : b ≡ a = ground arith in
        let p : points own b ≡ 1 = points_self own b (e ∙ ap some (sym ab)) in
        let o1 : refs_of o ≡ n.refs = ap refs_of (at ab) in
        let g1 : o' ≡ some (with_refs (n.refs - 1) n) = g ∙ rw k refl in
        let o2 : refs_of o' ≡ n.refs - 1 = ap refs_of g1 in omega (arith, c, f, p, o1, o2, l)
    | inr k ↦
        let g1 : o' ≡ o = g ∙ rw k refl in
        let o2 : refs_of o' ≡ refs_of o = ap refs_of g1 in
        omega (arith, c, f, o2, points_other own a b e k)
  ]

module _ {D : Type 0} (rest : Addr → ℕ) where
  -- A driver that writes its fields of the file leaves the counts.
  pub put-IsBalanced :
      (i : ℕ) (f : File) (s : Vfs D) (d : D)
      → i < file_open_max
      → f.inode ≡ (s.files i).inode
      → IsBalanced rest s
      → IsBalanced rest (record s { files = set_file i f s.files; drivers = d })
  put-IsBalanced i f s d l e c = record {
    distinct = c.distinct;
    held = c.held;
    balance = λ b. ground (arith, c.balance b, e, count_files-set file_open_max i f s.files b l);
  }

  release-IsBalanced :
      (i : ℕ) (a : Addr) (n : Inode D) (s : Vfs D)
      → i < file_open_max
      → (s.files i).inode ≡ some a
      → inode_at a s.inodes ≡ some n
      → 1 < n.refs
      → IsBalanced rest s
      → IsBalanced rest (record s {
        inodes = update_inode a (with_refs (n.refs - 1)) s.inodes;
        files = set_file i (freed (s.files i)) s.files;
      })
  release-IsBalanced i a n s l own at u c = record {
    distinct = rw (addrs-update a (with_refs (n.refs - 1)) s.inodes (λ m. refl)) c.distinct;
    held = c.held;
    balance = λ b.
        released a b n (s.files i).inode (inode_at b s.inodes)
          (inode_at b (update_inode a (with_refs (n.refs - 1)) s.inodes)) (from_files b s.files) _
          (count_dirs b s.dirs) (rest b) own u (λ e. rw e at) (c.balance b)
          (count_files-set file_open_max i (freed (s.files i)) s.files b l)
          (inode_at-update a b (with_refs (n.refs - 1)) s.inodes (λ m. refl) ∙ rw at refl);
  }

  finish_close-IsBalanced :
      (i : ℕ) (a : Addr) (ret : ℤ) (s : Vfs D)
      → i < file_open_max
      → (s.files i).inode ≡ some a
      → IsBalanced rest s
      → Ends (λ r t. IsBalanced rest t) (finish_close i a ret s)
  unfolding finish_close
  finish_close-IsBalanced i a ret s l own c = elim (Bool-cases (is_zero ret)) [
    | inl e ↦
        let (n, at, u) = used_inode i a s l own (balanced-IsCounted rest s c) in
        let t : Vfs D = record s { inodes = update_inode a (with_refs (n.refs - 1)) s.inodes } in
        rw (e, inode_release_many a n s at u, ◌>>◌, ◌>>=◌, file_free_lem i t l)
          (release-IsBalanced i a n s l own at u c)
    | inr e ↦ rw e c
  ]

  close_with-IsBalanced :
      (i : ℕ) (a : Addr) (op : Option (FileOp D)) (s : Vfs D)
      → i < file_open_max
      → (s.files i).inode ≡ some a
      → IsBalanced rest s
      → Ends (λ r t. IsBalanced rest t) ((call_file i op >>= finish_close i a) s)
  unfolding call_file
  close_with-IsBalanced i a none s l own c = finish_close-IsBalanced i a _ s l own c
  close_with-IsBalanced i a (some op) s l own c =
      let (ret, hook, d) = op (s.files i) s.drivers in
      let f : File = after_op (s.files i) hook in
      let t : Vfs D = record s { files = set_file i f s.files; drivers = d } in
      let own' : (t.files i).inode ≡ some a = ground (arith, own) in
      finish_close-IsBalanced i a ret t l own' (put-IsBalanced i f s d l refl c)

  by_type-IsBalanced :
      (i : ℕ) (a : Addr) (ops : InodeOps D) (s : Vfs D)
      → i < file_open_max
      → (s.files i).inode ≡ some a
      → IsBalanced rest s
      → Ends
          (λ r t. IsBalanced rest t)
          (by_type ops
            (λ o. call_file i o.close_op >>= finish_close i a)
            (λ o. call_file i o.close_op >>= finish_close i a)
            s)
  by_type-IsBalanced i a (filesystem o) s l own c = close_with-IsBalanced i a o.close_op s l own c
  by_type-IsBalanced i a (char_device o) s l own c = close_with-IsBalanced i a o.close_op s l own c
  by_type-IsBalanced i a (block_device k) s l own c = c
  by_type-IsBalanced i a unused s l own c = c

  -- From a state where the count of every inode is the number of the files and directories that refer
  -- to it and `rest` references of others, at least one as the list has its own, `vfs_close` on any
  -- descriptor ends without a fault in such a state with the same `rest`: no reference is lost and
  -- none is left over.
  pub vfs_close-IsBalanced :
      (fd : ℤ) (s : Vfs D) → IsBalanced rest s → Ends (λ r t. IsBalanced rest t) (vfs_close fd s)
  unfolding vfs_close with_file
  vfs_close-IsBalanced fd s c = elim (Option-cases (fd2file fd)) [
    | inl e ↦ rw (e, vfs_close, with_file) c
    | inr (i, e) ↦
        let l : i < file_open_max = (fd2file-file2fd fd i e).1 in
        elim (Option-cases (s.files i).inode) [
          | inl f ↦ rw (e, vfs_close, with_file, f) c
          | inr (a, f) ↦
              let (n, at, u) = used_inode i a s l f (balanced-IsCounted rest s c) in
              rw (e, vfs_close, with_file, f, deref_lem a n s at, ◌>>=◌)
                (by_type-IsBalanced i a n.ops s l f c)
        ]
  ]
