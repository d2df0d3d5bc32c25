-- ===== src/Vfs/Refs/Lifetime.antt =====
-- The references to inodes where a device is taken away, os/vfs/vfs_device.c.
use os_risc_v.Prelude.{
  ℕ, ◌<◌, ◌≤◌, ◌≡◌, refl, ap, ◌∙◌, inl, inr, Bool, Option, none, some, List, arith, ◌==◌, ltb,
  if◌then◌else◌, length, Bool-cases, Option-cases,
}
use mathlib.Core.Path.{subst}
use os_risc_v.Vfs.{Addr, Inode, InodeOps, Vfs}
use os_risc_v.Vfs.Inodes.{inode_at, inode_find, inode_free, inode_is_busy, remove_inode}
use os_risc_v.Vfs.Files.{path_max}
use os_risc_v.Vfs.Device.{unregister, block_device_unregister, char_device_unregister}
use os_risc_v.Vfs.Search.{inode_find-Found, Found}
use os_risc_v.Vfs.Refs.{users, refs_of, IsCounted, Ends}
use os_risc_v.Vfs.Refs.Counts.{inode_at-remove, Distinct-remove}
use os_risc_v.Vfs.Refs.Open.{Among-inode_at}

module _ {D : Type 0} where
  removed :
      (a b : Addr) (n : Inode D) (o o' : Option (Inode D)) (u : ℕ)
      → n.refs ≤ 1
      → (b ≡ a → o ≡ some n)
      → u < refs_of o
      → o' ≡ (if b == a then none else o)
      → u < refs_of o'
  removed a b n o o' u l at c g = elim (Bool-cases (b == a)) [
    | inl k ↦
        let o1 : refs_of o ≡ n.refs = ap refs_of (at (ground arith)) in
        let g1 : o' ≡ none = g ∙ rw k refl in
        let o2 : refs_of o' ≡ 1 = ap refs_of g1 in omega (arith, c, o1, o2, l)
    | inr k ↦
        let g1 : o' ≡ o = g ∙ rw k refl in
        let o2 : refs_of o' ≡ refs_of o = ap refs_of g1 in omega (arith, c, o2)
  ]

  pub remove-IsCounted :
      (a : Addr) (n : Inode D) (s : Vfs D)
      → inode_at a s.inodes ≡ some n
      → n.refs ≤ 1
      → IsCounted s
      → IsCounted (record s { inodes = remove_inode a s.inodes })
  remove-IsCounted a n s at l c = record {
    distinct = Distinct-remove a s.inodes c.distinct;
    counted = λ b.
        removed a b n (inode_at b s.inodes) (inode_at b (remove_inode a s.inodes)) (users s b) l
          (λ e. rw e at) (c.counted b) (inode_at-remove a b s.inodes c.distinct);
  }

  unregister-IsCounted :
      (kind : InodeOps D → Bool) (name : List ℕ) (s : Vfs D)
      → IsCounted s
      → Ends (λ r t. IsCounted t) (unregister kind name s)
  unfolding unregister inode_free
  unregister-IsCounted kind name s c = elim (Bool-cases (ltb path_max (length name))) [
    | inl e ↦ rw e c
    | inr e ↦ elim (Option-cases (inode_find name s.inodes).0) [
      | inl g ↦ rw (e, g) c
      | inr (n, g) ↦ elim (Bool-cases (kind n.ops)) [
        | inr k ↦ rw (e, g, k) c
        | inl k ↦ elim (Bool-cases (inode_is_busy n)) [
          | inl b ↦ rw (e, g, k, b) c
          | inr b ↦
              let a : Found name s.inodes (some n) =
                subst (Found name s.inodes) g (inode_find-Found name s.inodes) in
              let at = Among-inode_at n s.inodes name c.distinct a.0 in
              rw (e, g, k, b) (remove-IsCounted n.addr n s at (ground arith) c)
        ]
      ]
    ]
  ]

  -- From counts that are right, the two functions that take a device away end without a fault and
  -- leave counts that are right: no open file or directory refers to the inode that they free.
  pub device_unregister-IsCounted :
      (name : List ℕ) (s : Vfs D)
      → IsCounted s
      → Ends (λ r t. IsCounted t) (block_device_unregister name s)
        × Ends (λ r t. IsCounted t) (char_device_unregister name s)
  unfolding block_device_unregister char_device_unregister
  device_unregister-IsCounted name s c =
      (unregister-IsCounted _ name s c, unregister-IsCounted _ name s c)
