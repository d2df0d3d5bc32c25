-- ===== src/Vfs/Refs/Umount.antt =====
-- The references to inodes under `vfs_fs_umount` of os/vfs/vfs_fs.c.
use os_risc_v.Prelude.{
  ℕ, ◌≤◌, ◌≡◌, refl, sym, inl, inr, some, List, [], ◌∷◌, arith, ap, ◌∙◌, Bool-cases, Option-cases,
}
use mathlib.Core.Option
use os_risc_v.Vfs.{
  Addr, FsOps, Inode, InodeOps, char_device, block_device, filesystem, unused, Vfs, ◌>>=◌, ◌>>◌,
}
use os_risc_v.Vfs.Inodes.{match_inode, inode_at, inode_is_busy, mount_inode_find, is_zero}
use os_risc_v.Vfs.Names.{call_fs}
use os_risc_v.Vfs.Mount.{unbind_fs, umount_inode, fs_umount}
use os_risc_v.Vfs.Search.{Among, Match-cases}
use os_risc_v.Vfs.Refs.{refs_of, IsCounted, Ends}
use os_risc_v.Vfs.Refs.Effects.{inode_release_last}
use os_risc_v.Vfs.Refs.Open.{Among-inode_at}
use os_risc_v.Vfs.Refs.Lifetime.{remove-IsCounted}

module _ {D : Type 0} where
  mount_inode_find-Among :
      (path : List ℕ) (ns : List (Inode D)) (n : Inode D)
      → mount_inode_find path ns ≡ some n
      → Among path n ns
  unfolding mount_inode_find
  mount_inode_find-Among path [] n e = absurd (cc)
  mount_inode_find-Among path (m ∷ ms) n e = elim (Match-cases (match_inode m.ops m.name path)) [
    | inl s ↦ inl (sym (Option.some_inj.0 (sym (rw (s, mount_inode_find) refl) ∙ e)))
    | inr (inl u) ↦ inr (mount_inode_find-Among path ms n (sym (rw (u, mount_inode_find) refl) ∙ e))
    | inr (inr o) ↦ inr (mount_inode_find-Among path ms n (sym (rw (o, mount_inode_find) refl) ∙ e))
  ]

  one_ref :
      (a : Addr) (n : Inode D) (s : Vfs D)
      → inode_at a s.inodes ≡ some n
      → n.refs ≤ 1
      → IsCounted s
      → n.refs ≡ 1
  one_ref a n s at l c =
      let r : refs_of (inode_at a s.inodes) ≡ n.refs = ap refs_of at in
      omega (arith, c.counted a, r, l)

  unbind_fs-IsCounted :
      (a : Addr) (n : Inode D) (ops : FsOps D) (s : Vfs D)
      → inode_at a s.inodes ≡ some n
      → n.refs ≤ 1
      → IsCounted s
      → Ends (λ r t. IsCounted t) (unbind_fs a ops s)
  unfolding unbind_fs call_fs
  unbind_fs-IsCounted a n ops s at l c = elim (Option-cases ops.unbind_op) [
    | inl e ↦
        rw (e, unbind_fs, inode_release_last a n s at (one_ref a n s at l c), ◌>>◌, ◌>>=◌)
          (remove-IsCounted a n s at l c)
    | inr (op, e) ↦
        let (ret, d) = op a s.drivers in
        let t : Vfs D = record s { drivers = d } in
        let c' : IsCounted t = record { distinct = c.distinct; counted = c.counted } in
        elim (Bool-cases (is_zero ret)) [
          | inl z ↦
              rw
                (
                  e,
                  unbind_fs,
                  call_fs,
                  ◌>>=◌,
                  z,
                  inode_release_last a n t at (one_ref a n t at l c'),
                  ◌>>◌,
                  ◌>>=◌,
                )
                (remove-IsCounted a n t at l c')
          | inr z ↦ rw (e, unbind_fs, call_fs, ◌>>=◌, z) c'
        ]
  ]

  umount_inode-IsCounted :
      (n : Inode D) (ops : InodeOps D) (s : Vfs D)
      → inode_at n.addr s.inodes ≡ some n
      → IsCounted s
      → Ends (λ r t. IsCounted t) (umount_inode n ops s)
  unfolding umount_inode
  umount_inode-IsCounted n (filesystem ops) s at c = elim (Bool-cases (inode_is_busy n)) [
    | inl b ↦ rw b c
    | inr b ↦ rw b (unbind_fs-IsCounted n.addr n ops s at (ground arith) c)
  ]
  umount_inode-IsCounted n (char_device o) s at c = c
  umount_inode-IsCounted n (block_device k) s at c = c
  umount_inode-IsCounted n unused s at c = c

  -- From counts that are right, `vfs_fs_umount` of any directory ends without a fault and leaves
  -- counts that are right, whether the driver lets go of the device or not.
  pub fs_umount-IsCounted :
      (dir : List ℕ) (s : Vfs D) → IsCounted s → Ends (λ r t. IsCounted t) (fs_umount dir s)
  unfolding fs_umount
  fs_umount-IsCounted dir s c = elim (Option-cases (mount_inode_find dir s.inodes)) [
    | inl e ↦ rw (e, fs_umount) c
    | inr (n, e) ↦
        let at =
          Among-inode_at n s.inodes dir c.distinct (mount_inode_find-Among dir s.inodes n e) in
        rw (e, fs_umount) (umount_inode-IsCounted n n.ops s at c)
  ]
