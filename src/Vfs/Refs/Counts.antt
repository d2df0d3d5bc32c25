-- ===== src/Vfs/Refs/Counts.antt =====
-- How the writes of the virtual file system change the references to inodes and their counts.
use os_risc_v.Prelude.{
  ℕ, zero, suc, ◌+◌, ◌<◌, ◌≤◌, ◌≡◌, refl, false, none, some, List, [], ◌∷◌, arith, ◌==◌,
  if◌then◌else◌, has, Distinct,
}
use mathlib.Core.Option
use os_risc_v.Vfs.{Addr, File, Dir, Inode}
use os_risc_v.Vfs.Inodes.{inode_at, update_inode, remove_inode}
use os_risc_v.Vfs.Files.{set_file}
use os_risc_v.Vfs.Dirs.{dir_at, set_dir, remove_dir}
use os_risc_v.Vfs.Refs.{points, count_files, count_dirs, addrs}

-- A file written behind the entries that are counted changes nothing.
count_files-out :
    (k i : ℕ) (f : File) (files : ℕ → File) (a : Addr)
    → k ≤ i
    → count_files k a (set_file i f files) ≡ count_files k a files
count_files-out zero i f files a l = refl
count_files-out (suc k) i f files a l = ground (arith, count_files-out k i f files a)

-- A file written replaces the reference of its entry.
pub count_files-set :
    (k i : ℕ) (f : File) (files : ℕ → File) (a : Addr)
    → i < k
    → count_files k a (set_file i f files) + points (files i).inode a
      ≡ count_files k a files + points f.inode a
count_files-set zero i f files a l = elim l [ ]
count_files-set (suc k) i f files a l =
    ground (arith, count_files-set k i f files a, count_files-out k i f files a)

-- An entry of the pool that refers to an inode is one of its users.
pub count_files-le :
    (k i : ℕ) (files : ℕ → File) (a : Addr)
    → i < k
    → points (files i).inode a ≤ count_files k a files
count_files-le zero i files a l = elim l [ ]
count_files-le (suc k) i files a l = ground (arith, count_files-le k i files a)

module _ {D : Type 0} where
  pub inode_at-update :
      (a b : Addr) (f : Inode D → Inode D) (ns : List (Inode D))
      → ((n : Inode D) → (f n).addr ≡ n.addr)
      → inode_at b (update_inode a f ns)
        ≡ (if b == a then Option.map f (inode_at a ns) else inode_at b ns)
  unfolding inode_at update_inode
  inode_at-update a b f [] e = ground arith
  inode_at-update a b f (n ∷ ns) e = ground (arith, e n, inode_at-update a b f ns e)

  pub addrs-update :
      (a : Addr) (f : Inode D → Inode D) (ns : List (Inode D))
      → ((n : Inode D) → (f n).addr ≡ n.addr)
      → addrs (update_inode a f ns) ≡ addrs ns
  unfolding update_inode
  addrs-update a f [] e = refl
  addrs-update a f (n ∷ ns) e = ground (arith, e n, addrs-update a f ns e)

  pub inode_at-out :
      (a : Addr) (ns : List (Inode D)) → has a (addrs ns) ≡ false → inode_at a ns ≡ none
  unfolding inode_at
  inode_at-out a [] o = refl
  inode_at-out a (n ∷ ns) o = ground (arith, inode_at-out a ns)

  pub inode_at-remove :
      (a b : Addr) (ns : List (Inode D))
      → Distinct (addrs ns)
      → inode_at b (remove_inode a ns) ≡ (if b == a then none else inode_at b ns)
  unfolding inode_at remove_inode
  inode_at-remove a b [] d = ground arith
  inode_at-remove a b (n ∷ ns) d =
      ground (arith, inode_at-remove a b ns d.1, inode_at-out n.addr ns)

  pub has-addrs-remove :
      (a b : Addr) (ns : List (Inode D))
      → has b (addrs ns) ≡ false
      → has b (addrs (remove_inode a ns)) ≡ false
  unfolding remove_inode
  has-addrs-remove a b [] o = refl
  has-addrs-remove a b (n ∷ ns) o = ground (arith, has-addrs-remove a b ns)

  pub Distinct-remove :
      (a : Addr) (ns : List (Inode D)) → Distinct (addrs ns) → Distinct (addrs (remove_inode a ns))
  unfolding remove_inode
  Distinct-remove a [] d = tt
  Distinct-remove a (n ∷ ns) d = ground (arith, has-addrs-remove a n.addr ns, Distinct-remove a ns)

pub count_dirs-set :
    (p : Addr) (d e : Dir) (ds : List (Addr × Dir)) (a : Addr)
    → dir_at p ds ≡ some e
    → count_dirs a (set_dir p d ds) + points (some e.inode) a
      ≡ count_dirs a ds + points (some d.inode) a
unfolding dir_at set_dir
count_dirs-set p d e [] a h = absurd (cc)
count_dirs-set p d e ((q, c) ∷ ds) a h = ground (arith, count_dirs-set p d e ds a)

pub count_dirs-remove :
    (p : Addr) (e : Dir) (ds : List (Addr × Dir)) (a : Addr)
    → dir_at p ds ≡ some e
    → count_dirs a (remove_dir p ds) + points (some e.inode) a ≡ count_dirs a ds
unfolding dir_at remove_dir
count_dirs-remove p e [] a h = absurd (cc)
count_dirs-remove p e ((q, c) ∷ ds) a h = ground (arith, count_dirs-remove p e ds a)
