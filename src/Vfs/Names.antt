-- ===== src/Vfs/Names.antt =====
-- The calls on names of files, os/vfs/vfs.c.
use os_risc_v.Prelude.{
  ℕ, Bool, ◌||◌, Option, none, some, List, ℤ, neg, ◌==◌, ltb, if◌then◌else◌, length,
}
use os_risc_v.Vfs.{Addr, Call, Inode, FsOps, M, pure, fault}
use os_risc_v.Vfs.Err
use os_risc_v.Vfs.Inodes.{inode_find}
use os_risc_v.Vfs.Files.{PathArg, path_max, last_byte}
use os_risc_v.Vfs.Calls.{minus_one, only_fs}

abbrev pub too_long : PathArg → Bool
too_long p = ltb path_max (length p.bytes)

abbrev pub ends_in_slash : PathArg → Bool
ends_in_slash p = last_byte p == b'/'

module _ {D : Type 0} where
  unfoldable pub call_fs : Option (Call D) → M D ℤ
  call_fs none s = some (minus_one, s)
  call_fs (some op) s = let (ret, d) = op s.drivers in some (ret, record s { drivers = d })

  -- An entry of the table at its arguments.
  abbrev pub entry : {A : Type 0} → Option A → (A → Call D) → Option (Call D)
  entry none f = none
  entry (some op) f = some (f op)

  -- The file system that holds a path, with the path below its root.
  unfoldable pub in_fs : PathArg → (Inode D → FsOps D → List ℕ → M D ℤ) → M D ℤ
  in_fs path k s =
      let (found, rel) = inode_find path.bytes s.inodes in
      elim found [
        | none ↦ some (neg Err.inode_not_found, s)
        | some n ↦
            only_fs n.ops (λ o. elim rel [ none ↦ pure (neg Err.para_invalid) | some r ↦ k n o r ])
              s
      ]

  unfoldable pub vfs_unlink : PathArg → M D ℤ
  unfolding in_fs call_fs
  vfs_unlink path =
      if too_long path
      then pure (neg Err.path_too_long)
      else if ends_in_slash path
      then pure (neg Err.para_invalid)
      else in_fs path (λ n o r. call_fs (entry o.unlink_op (λ op. op n.addr r)))

  unfoldable pub vfs_mkdir : PathArg → M D ℤ
  unfolding in_fs call_fs
  vfs_mkdir path =
      if too_long path
      then pure (neg Err.path_too_long)
      else in_fs path (λ n o r. call_fs (entry o.mkdir_op (λ op. op n.addr r)))

  unfoldable pub vfs_rmdir : PathArg → M D ℤ
  unfolding in_fs call_fs
  vfs_rmdir path =
      if too_long path
      then pure (neg Err.path_too_long)
      else in_fs path (λ n o r. call_fs (entry o.rmdir_op (λ op. op n.addr r)))

  unfoldable pub vfs_stat : PathArg → ℕ → M D ℤ
  unfolding in_fs call_fs
  vfs_stat path buf =
      if buf == 0
      then pure (neg Err.buffer_null)
      else if too_long path
      then pure (neg Err.path_too_long)
      else if ends_in_slash path
      then pure (neg Err.para_invalid)
      else in_fs path (λ n o r. call_fs (entry o.stat_op (λ op. op n.addr r buf)))

  unfoldable pub vfs_statfs : PathArg → ℕ → M D ℤ
  unfolding call_fs
  vfs_statfs path buf s =
      if buf == 0 then some (neg Err.buffer_null, s) else elim (inode_find path.bytes s.inodes).0 [
        | none ↦ some (neg Err.inode_not_found, s)
        | some n ↦ only_fs n.ops (λ o. call_fs (entry o.statfs_op (λ op. op n.addr buf))) s
      ]

  -- Two inodes that must be one file system, each with the path below its root.
  unfoldable pub same_fs :
      ℤ
      → Inode D × Option (List ℕ)
      → Inode D × Option (List ℕ)
      → (FsOps D → List ℕ → List ℕ → M D ℤ)
      → M D ℤ
  same_fs differ (n, old) (m, new) k = only_fs n.ops λ o.
      if n.addr == m.addr
      then elim old [
        | none ↦ pure (neg Err.para_invalid)
        | some r ↦ elim new [ none ↦ pure (neg Err.para_invalid) | some q ↦ k o r q ]
      ]
      else pure differ

  -- Two names of files, each found on its own.
  unfoldable pub in_both :
      ℤ → PathArg → PathArg → (Addr → FsOps D → List ℕ → List ℕ → M D ℤ) → M D ℤ
  unfolding same_fs
  in_both differ old new k s =
      let (found, r) = inode_find old.bytes s.inodes in
      let (found', q) = inode_find new.bytes s.inodes in
      elim found [
        | none ↦ some (neg Err.inode_not_found, s)
        | some n ↦ elim found' [
          | none ↦ some (neg Err.inode_not_found, s)
          | some m ↦ same_fs differ (n, r) (m, q) (k n.addr) s
        ]
      ]

  -- The call of `link` stands under the test of `unlink`: a table that has only `unlink` makes the
  -- source call a null pointer.
  unfoldable pub call_link : FsOps D → Addr → List ℕ → List ℕ → M D ℤ
  call_link o a r q = elim o.unlink_op [
    | none ↦ pure minus_one
    | some _ ↦ elim o.link_op [ none ↦ fault | some op ↦ call_fs (some (op a r q)) ]
  ]

  unfoldable pub vfs_link : Option PathArg → Option PathArg → M D ℤ
  unfolding in_both call_link
  vfs_link none new = pure (neg Err.buffer_null)
  vfs_link (some old) none = pure (neg Err.buffer_null)
  vfs_link (some old) (some new) =
      if too_long old || too_long new
      then pure (neg Err.path_too_long)
      else if ends_in_slash old || ends_in_slash new
      then pure (neg Err.para_invalid)
      else in_both (neg Err.inode_invalid) old new (λ a o r q. call_link o a r q)

  unfoldable pub vfs_rename : PathArg → PathArg → M D ℤ
  unfolding in_both call_fs
  vfs_rename old new =
      if too_long old || too_long new
      then pure (neg Err.path_too_long)
      else in_both (neg Err.para_invalid) old new
          (λ a o r q. call_fs (entry o.rename_op (λ op. op a r q)))
