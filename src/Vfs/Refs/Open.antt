-- ===== src/Vfs/Refs/Open.antt =====
-- The references to inodes under `vfs_open` of os/vfs/vfs.c.
use os_risc_v.Prelude.{
  ℕ, ◌+◌, ◌<◌, ◌≡◌, refl, sym, inl, inr, true, Option, none, some, List, [], ◌∷◌, ℤ, arith, ◌==◌,
  ltb, is_neg, ap, has, Distinct, length, Bool-cases, Option-cases,
}
use mathlib.Core.Path.{subst}
use os_risc_v.Vfs.{
  Addr, File, FileOp, Inode, InodeOps, char_device, block_device, filesystem, unused, Vfs, ◌>>=◌,
  ◌>>◌,
}
use os_risc_v.Vfs.Inodes.{inode_at, inode_find, refs_up, update_inode, inode_refs_max}
use os_risc_v.Vfs.Files.{PathArg, last_byte, path_max, file_open_max, set_file, file_alloc}
use os_risc_v.Vfs.Calls.{call_file, after_op, minus_one}
use os_risc_v.Vfs.Open.{finish_open, set_path, open_with, open_inode, vfs_open}
use os_risc_v.Vfs.Pool.{file_alloc-FirstFree, FirstFree}
use os_risc_v.Vfs.Search.{inode_find-Found, Among, Found}
use os_risc_v.Vfs.Refs.{points, users, refs_of, addrs, IsBalanced, Unsaturated, Ends}
use os_risc_v.Vfs.Refs.Effects.{freed, file_free_lem, inode_refinc_lem}
use os_risc_v.Vfs.Refs.Counts.{count_files-set, inode_at-update, addrs-update}

module _ {D : Type 0} where
  refs_up_addr : (n : Inode D) → (refs_up n).addr ≡ n.addr
  refs_up_addr n = ground arith

  Among-has :
      (n : Inode D) (ns : List (Inode D)) (path : List ℕ)
      → Among path n ns
      → has n.addr (addrs ns) ≡ true
  Among-has n [] path a = absurd a
  Among-has n (m ∷ ms) path (inl e) = ground (arith, ap (λ k. k.addr) e)
  Among-has n (m ∷ ms) path (inr a) = ground (arith, Among-has n ms path a)

  at-head : (m : Inode D) (ms : List (Inode D)) → inode_at m.addr (m ∷ ms) ≡ some m
  unfolding inode_at
  at-head m ms = ground arith

  pub Among-inode_at :
      (n : Inode D) (ns : List (Inode D)) (path : List ℕ)
      → Distinct (addrs ns)
      → Among path n ns
      → inode_at n.addr ns ≡ some n
  unfolding inode_at
  Among-inode_at n [] path d a = absurd a
  Among-inode_at n (m ∷ ms) path d (inl e) =
      subst (λ k. inode_at k.addr (m ∷ ms) ≡ some k) (sym e) (at-head m ms)
  Among-inode_at n (m ∷ ms) path d (inr a) =
      ground (arith, Among-has n ms path a, Among-inode_at n ms path d.1 a, d.0)

module _ {D : Type 0} (rest : Addr → ℕ) where
  -- The state inside `vfs_open`: entry `i` refers to the inode at `a`, which is not yet counted.
  pub record Opening (i : ℕ) (a : Addr) (s : Vfs D) : Type 0 where
    pub inside : i < file_open_max
    pub own : (s.files i).inode ≡ some a
    pub listed : (n : Inode D) × (inode_at a s.inodes ≡ some n) × (n.refs < inode_refs_max)
    pub distinct : Distinct (addrs s.inodes)
    pub held : (b : Addr) → 0 < rest b
    pub balance :
        (b : Addr) → users s b + rest b ≡ refs_of (inode_at b s.inodes) + points (some a) b

  -- Writes to the entry that keep its inode keep that state.
  Opening-put :
      (i : ℕ) (a : Addr) (f : File) (s : Vfs D) (d : D)
      → f.inode ≡ some a
      → Opening i a s
      → Opening i a (record s { files = set_file i f s.files; drivers = d })
  Opening-put i a f s d e o = record {
    inside = o.inside;
    own = ground arith;
    listed = o.listed;
    distinct = o.distinct;
    held = o.held;
    balance = λ b.
        ground (arith, o.balance b, o.own, count_files-set file_open_max i f s.files b o.inside);
  }

  -- The failure gives the entry back, and the success counts the inode.
  freed-IsBalanced :
      (i : ℕ) (a : Addr) (s : Vfs D)
      → Opening i a s
      → IsBalanced rest (record s { files = set_file i (freed (s.files i)) s.files })
  freed-IsBalanced i a s o = record {
    distinct = o.distinct;
    held = o.held;
    balance = λ b. ground (
      arith,
      o.balance b,
      o.own,
      count_files-set file_open_max i (freed (s.files i)) s.files b o.inside,
    );
  }

  pub refinc-IsBalanced :
      (i : ℕ) (a : Addr) (s : Vfs D)
      → Opening i a s
      → IsBalanced rest (record s { inodes = update_inode a refs_up s.inodes })
  refinc-IsBalanced i a s o = record {
    distinct = rw (addrs-update a refs_up s.inodes refs_up_addr) o.distinct;
    held = o.held;
    balance = λ b.
        ground (arith, o.balance b, o.listed, inode_at-update a b refs_up s.inodes refs_up_addr);
  }

  finish_open-IsBalanced :
      (i : ℕ) (a : Addr) (ret : ℤ) (s : Vfs D)
      → Opening i a s
      → Ends (λ r t. IsBalanced rest t) (finish_open i a ret s)
  unfolding finish_open
  finish_open-IsBalanced i a ret s o = elim (Bool-cases (is_neg ret)) [
    | inl e ↦ rw (e, file_free_lem i s o.inside, ◌>>◌, ◌>>=◌) (freed-IsBalanced i a s o)
    | inr e ↦
        rw (e, inode_refinc_lem a o.listed.0 s o.listed.1, ◌>>◌, ◌>>=◌) (refinc-IsBalanced i a s o)
  ]

  open_with-IsBalanced :
      (path : List ℕ) (i : ℕ) (a : Addr) (op : Option (FileOp D)) (s : Vfs D)
      → Opening i a s
      → Ends (λ r t. IsBalanced rest t) (open_with path i a op s)
  unfolding open_with call_file set_path
  open_with-IsBalanced path i a none s o = finish_open-IsBalanced i a minus_one s o
  open_with-IsBalanced path i a (some op) s o =
      let (ret, hook, d) = op (s.files i) s.drivers in
      let f1 : File = after_op (s.files i) hook in
      let s1 : Vfs D = record s { files = set_file i f1 s.files; drivers = d } in
      let o1 : Opening i a s1 = Opening-put i a f1 s d o.own o in
      let f2 : File = record (s1.files i) { relative_path = path } in
      let s2 : Vfs D = record s1 { files = set_file i f2 s1.files } in
      let o2 : Opening i a s2 = Opening-put i a f2 s1 d o1.own o1 in
      finish_open-IsBalanced i a ret s2 o2

  open_inode-IsBalanced :
      (path : List ℕ) (flags i : ℕ) (a : Addr) (ops : InodeOps D) (rel : Option (List ℕ))
      (s : Vfs D)
      → Opening i a s
      → Ends (λ r t. IsBalanced rest t) (open_inode path flags i a ops rel s)
  unfolding open_inode
  open_inode-IsBalanced path flags i a (filesystem ops) none s o = finish_open-IsBalanced i a _ s o
  open_inode-IsBalanced path flags i a (filesystem ops) (some rel) s o =
      elim (Option-cases ops.open_op) [
        | inl e ↦ rw e (open_with-IsBalanced path i a none s o)
        | inr (op, e) ↦ rw e (open_with-IsBalanced path i a (some (op rel flags)) s o)
      ]
  open_inode-IsBalanced path flags i a (char_device ops) rel s o =
      open_with-IsBalanced path i a ops.open_op s o
  open_inode-IsBalanced path flags i a (block_device k) rel s o = finish_open-IsBalanced i a _ s o
  open_inode-IsBalanced path flags i a unused rel s o = finish_open-IsBalanced i a _ s o

  -- The entry is taken.
  pub Opening-start :
      (i : ℕ) (a : Addr) (n : Inode D) (f : File) (s : Vfs D)
      → i < file_open_max
      → (s.files i).inode ≡ none
      → inode_at a s.inodes ≡ some n
      → n.refs < inode_refs_max
      → f.inode ≡ some a
      → IsBalanced rest s
      → Opening i a (record s { files = set_file i f s.files })
  Opening-start i a n f s l free e u own c = record {
    inside = l;
    own = ground arith;
    listed = (n, e, u);
    distinct = c.distinct;
    held = c.held;
    balance = λ b. ground (arith, c.balance b, count_files-set file_open_max i f s.files b l);
  }

  opened-IsBalanced :
      (path : List ℕ) (flags i : ℕ) (n : Inode D) (f : File) (rel : Option (List ℕ)) (s : Vfs D)
      → FirstFree 0 file_open_max s.files (some i)
      → Among path n s.inodes
      → f.inode ≡ some n.addr
      → IsBalanced rest s
      → Unsaturated s
      → Ends
          (λ r t. IsBalanced rest t)
          (open_inode path flags i n.addr n.ops rel (record s { files = set_file i f s.files }))
  opened-IsBalanced path flags i n f rel s free a own c u =
      let e = Among-inode_at n s.inodes path c.distinct a in
      let null : (s.files i).inode ≡ none = ground (arith, free.2) in
      open_inode-IsBalanced path flags i n.addr n.ops rel _
        (Opening-start i n.addr n f s free.1 null e (u n.addr n e) own c)

  -- From a state where the count of every inode is the number of the files and directories that refer
  -- to it and `rest` references of others, at least one as the list has its own, and below the limit
  -- at which counting stops, `vfs_open` on any path ends without a fault in such a state with the same
  -- `rest`, whether it succeeds or fails: no reference is lost and none is left over.
  pub vfs_open-IsBalanced :
      (path : PathArg) (flags : ℕ) (s : Vfs D)
      → IsBalanced rest s
      → Unsaturated s
      → Ends (λ r t. IsBalanced rest t) (vfs_open path flags s)
  unfolding vfs_open
  vfs_open-IsBalanced path flags s c u = elim (Bool-cases (ltb path_max (length path.bytes))) [
    | inl e ↦ rw e c
    | inr e ↦ elim (Bool-cases (last_byte path == b'/')) [
      | inl f ↦ rw (e, f) c
      | inr f ↦ elim (Option-cases (inode_find path.bytes s.inodes).0) [
        | inl g ↦ rw (e, f, g) c
        | inr (n, g) ↦ elim (Option-cases (file_alloc s.files)) [
          | inl h ↦ rw (e, f, g, h) c
          | inr (i, h) ↦
              let a : Found path.bytes s.inodes (some n) =
                subst (Found path.bytes s.inodes) g (inode_find-Found path.bytes s.inodes) in
              let free : FirstFree 0 file_open_max s.files (some i) =
                subst (FirstFree 0 file_open_max s.files) h (file_alloc-FirstFree s.files) in
              rw (e, f, g, h) (opened-IsBalanced path.bytes flags i n _ _ s free a.0 refl c u)
        ]
      ]
    ]
  ]
