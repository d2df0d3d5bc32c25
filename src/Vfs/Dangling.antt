-- ===== src/Vfs/Dangling.antt =====
-- Calls that reach a pointer that is null or dangling, in os/vfs/vfs_fs.c and os/vfs/vfs.c.
use os_risc_v.Prelude.{
  ℕ, ◌<◌, ◌≡◌, refl, sym, ap, ◌∙◌, inl, inr, Bool, true, false, ◌&&◌, ◌||◌, Option, none, some, ℤ,
  neg, List, [], ◌∷◌, arith, ◌==◌, has, length, Bool-cases, Option-cases,
}
use mathlib.Core.Path.{subst}
use mathlib.Core.Option
use os_risc_v.Vfs.{Addr, FsOps, Inode, FsMap, Vfs, ◌>>=◌}
use os_risc_v.Vfs.Err
use os_risc_v.Vfs.Inodes.{begins_with, inode_find}
use os_risc_v.Vfs.Mount.{
  fsmap_loop, fsmap_get, fs_register, fs_unregister, with_fs_device, set_fs_ops, is_device, fs_mkfs,
}
use os_risc_v.Vfs.Files.{fd2file}
use os_risc_v.Vfs.Calls.{with_file, with_inode, vfs_read, vfs_close}

or_left : (a b : Bool) → (a || b) ≡ false → a ≡ false
or_left true b e = e
or_left false b e = refl

or_right : (a b : Bool) → (a || b) ≡ false → b ≡ false
or_right true b e = absurd (cc)
or_right false b e = e

self_differs : (a : ℕ) → (a == a) ≡ false → ⊥
self_differs a e = ground arith

none_is_not : {A B : Type 0} {a : A} → none ≡ some a → B
none_is_not e = absurd (cc)

codes : Err.fs_not_registered ≡ Err.no_error → ⊥
codes e = absurd (omega (arith, e))

module _ {D : Type 0} where
  -- Where the file system is registered and the path leads to a device, `vfs_fs_mkfs` faults: it
  -- writes through a pointer that is null.
  pub fs_mkfs-fault :
      (device_path fs_name : List ℕ) (opt arg : ℕ) (m : FsMap D) (d : Inode D) (s : Vfs D)
      → fsmap_get fs_name s ≡ some (some m, s)
      → (inode_find device_path s.inodes).0 ≡ some d
      → is_device d.ops ≡ true
      → fs_mkfs device_path fs_name opt arg s ≡ none
  unfolding fs_mkfs with_fs_device set_fs_ops
  fs_mkfs-fault device_path fs_name opt arg m d s e f k =
      rw (e, fs_mkfs, with_fs_device, ◌>>=◌, f, k) refl

  -- The entry `k` is not the one given back.
  loop-step :
      (name : List ℕ) (freed : List Addr) (k : FsMap D) (ms : List (FsMap D)) (m : FsMap D)
      → has k.addr (m.addr ∷ freed) ≡ false
      → fsmap_loop name freed (k ∷ ms) ≡ some (some m)
      → (fsmap_loop name freed ms ≡ some (some m) → fsmap_loop name (m.addr ∷ freed) ms ≡ none)
      → fsmap_loop name (m.addr ∷ freed) (k ∷ ms) ≡ none
  unfolding fsmap_loop
  loop-step name freed k ms m h e ih =
      let differ : (k.addr == m.addr) ≡ false = or_left _ _ h in
      let hf : has k.addr freed ≡ false = or_right _ _ h in
      elim (Bool-cases ((length k.name == length name) && begins_with k.name name)) [
        | inl b ↦
            let found : fsmap_loop name freed (k ∷ ms) ≡ some (some k) =
              rw (fsmap_loop, hf, b) refl in
            let q : k ≡ m = Option.some_inj.0 (Option.some_inj.0 (sym found ∙ e)) in
            absurd (self_differs k.addr (subst (λ x. (k.addr == x.addr) ≡ false) (sym q) differ))
        | inr b ↦
            let skipped : fsmap_loop name freed (k ∷ ms) ≡ fsmap_loop name freed ms =
              rw (fsmap_loop, hf, b) refl in
            rw (h, b) (ih (sym skipped ∙ e))
      ]

  fsmap_loop-freed :
      (name : List ℕ) (freed : List Addr) (ms : List (FsMap D)) (m : FsMap D)
      → fsmap_loop name freed ms ≡ some (some m)
      → fsmap_loop name (m.addr ∷ freed) ms ≡ none
  unfolding fsmap_loop
  fsmap_loop-freed name freed [] m e = absurd (cc)
  fsmap_loop-freed name freed (k ∷ ms) m e = elim (Bool-cases (has k.addr (m.addr ∷ freed))) [
    | inl h ↦ rw h refl
    | inr h ↦ loop-step name freed k ms m h e (fsmap_loop-freed name freed ms m)
  ]

  unregister_lem :
      (name : List ℕ) (m : FsMap D) (s : Vfs D)
      → fsmap_loop name s.freed_maps s.fsmaps ≡ some (some m)
      → fs_unregister (some name) s
        ≡ some (Err.no_error, record s { freed_maps = m.addr ∷ s.freed_maps })
  unfolding fs_unregister fsmap_get
  unregister_lem name m s f = rw (f, fs_unregister, fsmap_get, ◌>>=◌) refl

  unregister_none :
      (name : List ℕ) (s : Vfs D)
      → fsmap_loop name s.freed_maps s.fsmaps ≡ some none
      → fs_unregister (some name) s ≡ some (Err.fs_not_registered, s)
  unfolding fs_unregister fsmap_get
  unregister_none name s f = rw (f, fs_unregister, fsmap_get, ◌>>=◌) refl

  unregister_fault :
      (name : List ℕ) (s : Vfs D)
      → fsmap_loop name s.freed_maps s.fsmaps ≡ none
      → fs_unregister (some name) s ≡ none
  unfolding fs_unregister fsmap_get
  unregister_fault name s f = rw (f, fs_unregister, fsmap_get, ◌>>=◌) refl

  unregister_state :
      (name : List ℕ) (s t : Vfs D)
      → fs_unregister (some name) s ≡ some (Err.no_error, t)
      → fsmap_loop name t.freed_maps t.fsmaps ≡ none
  unregister_state name s t e = elim (Option-cases (fsmap_loop name s.freed_maps s.fsmaps)) [
    | inl f ↦ none_is_not (sym (unregister_fault name s f) ∙ e)
    | inr (none, f) ↦
        absurd (codes (ap (λ p. p.0) (Option.some_inj.0 (sym (unregister_none name s f) ∙ e))))
    | inr (some m, f) ↦
        let q = ap (λ p. p.1) (Option.some_inj.0 (sym (unregister_lem name m s f) ∙ e)) in
        subst (λ t. fsmap_loop name t.freed_maps t.fsmaps ≡ none) q
          (fsmap_loop-freed name s.freed_maps s.fsmaps m f)
  ]

  -- After `vfs_fs_unregister` has succeeded, `vfs_fs_register` of the same name faults: the list
  -- still has the entry that was given to `kfree`.
  pub fs_register-unregister :
      (name : List ℕ) (ops : FsOps D) (memory : Option Addr) (s t : Vfs D)
      → fs_unregister (some name) s ≡ some (Err.no_error, t)
      → fs_register (some name) (some ops) memory t ≡ none
  unfolding fs_register fsmap_get
  fs_register-unregister name ops memory s t e = rw (unregister_state name s t e, ◌>>=◌) refl

  -- On a descriptor in range whose entry is free, `vfs_read` with a buffer uses the null pointer to
  -- an inode, where `vfs_close` returns an error code.
  pub vfs_read-fault :
      (fd : ℤ) (i buf count : ℕ) (s : Vfs D)
      → fd2file fd ≡ some i
      → (s.files i).inode ≡ none
      → 0 < buf
      → (vfs_read fd buf count s ≡ none) × (vfs_close fd s ≡ some (neg Err.inode_not_found, s))
  unfolding vfs_read vfs_close with_file with_inode
  vfs_read-fault fd i buf count s e f l =
      let b : (buf == 0) ≡ false = ground arith in
      (rw (b, vfs_read, e, with_file, with_inode, f) refl, rw (vfs_close, e, with_file, f) refl)
