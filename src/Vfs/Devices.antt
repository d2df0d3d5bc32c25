-- ===== src/Vfs/Devices.antt =====
-- A character device that is registered and taken away again, os/vfs/vfs_device.c.
use os_risc_v.Prelude.{
  ℕ, ◌≤◌, ◌≡◌, refl, ◌++◌, true, false, Option, none, some, List, [], ◌∷◌, arith, ltb, has, length,
}
use mathlib.Core.Path.{subst}
use os_risc_v.CString.Compare.{NonZero}
use os_risc_v.Vfs.{Addr, ChrdevOps, Inode, char_device, unused, Vfs, ◌>>=◌, ◌>>◌}
use os_risc_v.Vfs.Err
use os_risc_v.Vfs.Inodes.{
  begins_with, match_inode, same, other, search_loop, inode_find, inode_alloc, set_ops, inode_free,
  update_inode, remove_inode, inode_name_max,
}
use os_risc_v.Vfs.Files.{path_max}
use os_risc_v.Vfs.Device.{
  create_device, register_new, char_device_register, unregister, char_device_unregister,
}
use os_risc_v.Vfs.Search.{
  meets, All, Found, inode_find-Found, begins_with_iff, take-length, step_other, step_same,
}
use os_risc_v.Vfs.Refs.{addrs}

pub begins_with_self : (name : List ℕ) → NonZero name → begins_with name name ≡ true
begins_with_self name z = (begins_with_iff name name z z).1 (take-length name)

module _ {D : Type 0} where
  -- The inode that `vfs_char_device_register` adds.
  abbrev pub new_inode : Addr → ChrdevOps D → List ℕ → Inode D
  new_inode a ops name = record { addr = a; ops = char_device ops; refs = 1; name = name }

  update_inode-last :
      (a : Addr) (f : Inode D → Inode D) (n : Inode D) (ns : List (Inode D))
      → n.addr ≡ a
      → has a (addrs ns) ≡ false
      → update_inode a f (ns ++ n ∷ []) ≡ ns ++ f n ∷ []
  unfolding update_inode
  update_inode-last a f n [] e h = ground (arith, e)
  update_inode-last a f n (m ∷ ns) e h = ground (arith, update_inode-last a f n ns e)

  remove_inode-last :
      (a : Addr) (n : Inode D) (ns : List (Inode D))
      → n.addr ≡ a
      → has a (addrs ns) ≡ false
      → remove_inode a (ns ++ n ∷ []) ≡ ns
  unfolding remove_inode
  remove_inode-last a n [] e h = ground (arith, e)
  remove_inode-last a n (m ∷ ns) e h = ground (arith, remove_inode-last a n ns e)

  search_loop-last :
      (path : List ℕ) (n : Inode D) (ns : List (Inode D)) (rel : Option (List ℕ))
      → All path (λ m. meets path m ≡ other) ns
      → meets path n ≡ same
      → (search_loop (ns ++ n ∷ []) path rel none).0 ≡ some n
  search_loop-last path n [] rel none_meets e = rw (step_same path n [] rel none e) refl
  search_loop-last path n (m ∷ ns) rel (o, os) e =
      rw (step_other path m (ns ++ n ∷ []) rel none o) (search_loop-last path n ns rel os e)

  meets_self :
      (a : Addr) (ops : ChrdevOps D) (name : List ℕ)
      → NonZero name
      → meets name (new_inode a ops name) ≡ same
  unfolding match_inode
  meets_self a ops name z = ground (arith, begins_with_self name z)

  abbrev with_new : Addr → ChrdevOps D → List ℕ → Vfs D → Vfs D
  with_new a ops name s = record s { inodes = s.inodes ++ new_inode a ops name ∷ [] }

  module _ (name : List ℕ) (ops : ChrdevOps D) (a : Addr) (s : Vfs D) where
    register_lem :
        length name ≤ inode_name_max
        → (inode_find name s.inodes).0 ≡ none
        → has a (addrs s.inodes) ≡ false
        → char_device_register name ops (some a) s ≡ some (Err.no_error, with_new a ops name s)
    unfolding char_device_register register_new create_device inode_alloc set_ops
    register_lem l f h =
        let l1 : ltb path_max (length name) ≡ false = ground arith in
        let l2 : ltb inode_name_max (length name) ≡ false = ground arith in
        let n : Inode D = record { addr = a; ops = unused; refs = 1; name = name } in
        let last =
          update_inode-last a (λ n. record n { ops = char_device ops }) n s.inodes refl h in
        rw
          (
            l1, f, char_device_register, register_new, create_device, inode_alloc, l2, ◌>>=◌, ◌>>◌,
            ◌>>=◌, set_ops, last,
          )
          refl

    find-new :
        NonZero name
        → (inode_find name s.inodes).0 ≡ none
        → (inode_find name (s.inodes ++ new_inode a ops name ∷ [])).0 ≡ some (new_inode a ops name)
    unfolding inode_find
    find-new z f =
        search_loop-last name (new_inode a ops name) s.inodes none
          (subst (Found name s.inodes) f (inode_find-Found name s.inodes)) (meets_self a ops name z)

    unregister-new :
        NonZero name
        → length name ≤ inode_name_max
        → (inode_find name s.inodes).0 ≡ none
        → has a (addrs s.inodes) ≡ false
        → char_device_unregister name (with_new a ops name s) ≡ some (Err.no_error, s)
    unfolding char_device_unregister unregister inode_free
    unregister-new z l f h =
        let l1 : ltb path_max (length name) ≡ false = ground arith in
        rw (l1, find-new z f, remove_inode-last a (new_inode a ops name) s.inodes refl h) refl

  -- A character device of a name that no inode meets is registered, found under its name, and taken
  -- away again, which leaves the state as it was. The name has at most 31 bytes and none is 0, and
  -- the memory that `kmalloc` gives holds no inode of the list.
  pub char_device_unregister-register :
      (name : List ℕ) (ops : ChrdevOps D) (a : Addr) (s : Vfs D)
      → NonZero name
      → length name ≤ inode_name_max
      → (inode_find name s.inodes).0 ≡ none
      → has a (addrs s.inodes) ≡ false
      → (t : Vfs D) × (char_device_register name ops (some a) s ≡ some (Err.no_error, t))
        × ((inode_find name t.inodes).0 ≡ some (new_inode a ops name))
        × (char_device_unregister name t ≡ some (Err.no_error, s))
  char_device_unregister-register name ops a s z l f h = (
    with_new a ops name s,
    register_lem name ops a s l f h,
    find-new name ops a s z f,
    unregister-new name ops a s z l f h,
  )
