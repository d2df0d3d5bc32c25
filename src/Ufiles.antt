-- ===== src/Ufiles.antt =====
-- The open files of a process, os/kernel/fs.c: the list of descriptors, and the calls that open,
-- copy and close ends of pipes. The list is the sequence of its entries; pipes are found by address,
-- and one that was given back to kfree is none. The calls of the virtual file system are a record, a
-- parameter of the calls here. `mem` says whether kmalloc gives memory.
pub mod Table
pub mod Refs
pub mod Close
pub mod Dup
pub mod Pipes
mod Tests
use os_risc_v.Prelude.{
  ℕ, zero, suc, ◌+◌, ◌-◌, ◌&&◌, ◌||◌, Bool, true, false, not, Option, none, some, List, [], ◌∷◌,
  ◌==◌, ltb, if◌then◌else◌, ℤ, pos, negsuc,
}
use os_risc_v.Pipe.{Pipe, new_pipe}
use os_risc_v.Pipe.Close.{
  UfileType, stdin, stdout, stderr, pipein, pipeout, link, file, dir, pipe_close,
}

-- `private` is a descriptor of the file system, or the address of a pipe or a directory.
pub record Ufile : Type 0 where
  pub type : UfileType
  pub ufd : ℕ
  pub private : ℕ

-- The memory that kmalloc clears, with the descriptor set.
abbrev pub new_ufile : ℕ → Ufile
new_ufile n = record { type = stdin; ufd = n; private = 0 }

-- The entry first, then the result.
abbrev pub under : Ufile → Option (ℕ × List Ufile) → Option (ℕ × List Ufile)
under f none = none
under f (some (n, fs)) = some (n, f ∷ fs)

-- The loop of `ufile_alloc`, with the new descriptor and the list. `ufd` is an int: the source has a
-- value for `f->ufd + 1` below the largest int only, and the model is read there.
unfoldable pub alloc_loop : List Ufile → Option (ℕ × List Ufile)
alloc_loop [] = none
alloc_loop (f ∷ []) = some (f.ufd + 1, f ∷ new_ufile (f.ufd + 1) ∷ [])
alloc_loop (f ∷ g ∷ fs) =
    let rest = under f (alloc_loop (g ∷ fs)) in
    if ltb (f.ufd + 1) g.ufd then some (f.ufd + 1, f ∷ new_ufile (f.ufd + 1) ∷ g ∷ fs) else rest

unfoldable pub ufile_alloc : Bool → List Ufile → Option (ℕ × List Ufile)
unfolding alloc_loop
ufile_alloc mem fs = if mem then alloc_loop fs else none

unfoldable pub by_fd_loop : ℕ → List Ufile → Option (ℕ × List Ufile)
by_fd_loop fd [] = none
by_fd_loop fd (f ∷ []) = if f.ufd == fd then none else some (fd, f ∷ new_ufile fd ∷ [])
by_fd_loop fd (f ∷ g ∷ fs) =
    let rest = under f (by_fd_loop fd (g ∷ fs)) in
    if f.ufd == fd
    then none
    else if ltb fd g.ufd && ltb f.ufd fd
    then some (fd, f ∷ new_ufile fd ∷ g ∷ fs)
    else rest

-- On the empty list the first test reads no entry, but the result does not depend on it.
unfoldable pub ufile_alloc_by_fd : Bool → ℕ → List Ufile → Option (ℕ × List Ufile)
unfolding by_fd_loop
ufile_alloc_by_fd mem fd [] = none
ufile_alloc_by_fd mem fd (f ∷ fs) = if not mem || ltb fd f.ufd then none else by_fd_loop fd (f ∷ fs)

-- `ufile_free` of the entry with the descriptor.
unfoldable pub ufile_free : ℕ → List Ufile → List Ufile
ufile_free n [] = []
ufile_free n (f ∷ fs) = if f.ufd == n then fs else f ∷ ufile_free n fs

unfoldable pub ufd2ufile : ℕ → List Ufile → Option Ufile
ufd2ufile n [] = none
ufd2ufile n (f ∷ fs) = if f.ufd == n then some f else ufd2ufile n fs

-- `newfile->type` and `newfile->private` written through the pointer to the entry.
unfoldable pub set_ufile : ℕ → UfileType → ℕ → List Ufile → List Ufile
set_ufile n t a [] = []
set_ufile n t a (f ∷ fs) =
    if f.ufd == n then record f { type = t; private = a } ∷ fs else f ∷ set_ufile n t a fs

-- The calls of os/vfs/vfs.c that the calls below make: closing, with whether the result is 0, and
-- opening once more what a descriptor or a directory stands for, or a device of its own.
pub record Calls (W : Type 0) : Type 0 where
  pub vfs_close : ℕ → W → Bool × W
  pub vfs_closedir : ℕ → W → Bool × W
  pub reopen : ℕ → W → Option ℕ × W
  pub reopen_dir : ℕ → W → Option ℕ × W
  pub open_std : UfileType → W → Option ℕ × W

pub record State (W : Type 0) : Type 0 where
  pub files : List Ufile
  pub pipes : ℕ → Option Pipe
  pub world : W

abbrev pub set_pipe : ℕ → Option Pipe → (ℕ → Option Pipe) → ℕ → Option Pipe
set_pipe a o pipes b = if b == a then o else pipes b

-- `none` is the use of a pipe that was given back.
abbrev pub Run : Type 0 → Type 0
Run W = Option (ℤ × State W)

abbrev pub more_ends : UfileType → Pipe → Pipe
more_ends pipein p = record p { r_ref = p.r_ref + 1 }
more_ends pipeout p = record p { w_ref = p.w_ref + 1 }
more_ends other p = p

module _ {W : Type 0} where
  abbrev pub put_pipe : ℕ → ℤ × Option Pipe → State W → Run W
  put_pipe a (r, o) s = some (r, record s { pipes = set_pipe a o s.pipes })

  abbrev pub close_end : UfileType → ℕ → Option Pipe → State W → Run W
  close_end e a none s = none
  close_end e a (some p) s = put_pipe a (pipe_close e p) s

  abbrev pub closed_file : Bool × W → State W → Run W
  closed_file (true, w) s = some (pos 0, record s { world = w })
  closed_file (false, w) s = some (negsuc 0, record s { world = w })

  -- What `sys_close` does to the thing behind an entry.
  abbrev pub close_private : Calls W → UfileType → ℕ → State W → Run W
  close_private c dir a s = closed_file (c.vfs_closedir a s.world) s
  close_private c pipein a s = close_end pipein a (s.pipes a) s
  close_private c pipeout a s = close_end pipeout a (s.pipes a) s
  close_private c other a s = closed_file (c.vfs_close a s.world) s

  abbrev pub drop_ufile : ℕ → Run W → Run W
  drop_ufile n none = none
  drop_ufile n (some (r, s)) = some (r, record s { files = ufile_free n s.files })

  abbrev pub close_found : Calls W → Option Ufile → State W → Run W
  close_found c none s = some (negsuc 0, s)
  close_found c (some f) s = drop_ufile f.ufd (close_private c f.type f.private s)

  unfoldable pub sys_close : Calls W → ℤ → State W → Run W
  unfolding ufd2ufile ufile_free
  sys_close c (negsuc n) s = some (negsuc 0, s)
  sys_close c (pos n) s = close_found c (ufd2ufile n s.files) s

  -- The new entry gets what was opened, or goes away.
  abbrev pub opened : UfileType → ℕ → Option ℕ × W → State W → Run W
  opened t n (none, w) s = some (negsuc 0, record s { files = ufile_free n s.files; world = w })
  opened t n (some a, w) s = some (pos n, record s { files = set_ufile n t a s.files; world = w })

  abbrev pub share_pipe : UfileType → ℕ → ℕ → Option Pipe → State W → Run W
  share_pipe e n a none s = none
  share_pipe e n a (some p) s = some (
    pos n,
    record s { files = set_ufile n e a s.files; pipes = set_pipe a (some (more_ends e p)) s.pipes },
  )

  -- The entry `n` becomes a copy of one of the given type: the cases that `sys_dup` and `sys_dup2`
  -- share.
  abbrev pub copy_ufile : Calls W → UfileType → ℕ → ℕ → State W → Run W
  copy_ufile c file a n s = opened file n (c.reopen a s.world) s
  copy_ufile c pipein a n s = share_pipe pipein n a (s.pipes a) s
  copy_ufile c pipeout a n s = share_pipe pipeout n a (s.pipes a) s
  copy_ufile c dir a n s = opened dir n (c.reopen_dir a s.world) s
  copy_ufile c link a n s = some (negsuc 0, s)
  copy_ufile c std a n s = opened std n (c.open_std std s.world) s

  abbrev pub with_new : Option (ℕ × List Ufile) → (ℕ → State W → Run W) → State W → Run W
  with_new none go s = some (negsuc 0, s)
  with_new (some (n, fs)) go s = go n (record s { files = fs })

  abbrev pub dup_found : Calls W → Bool → Option Ufile → State W → Run W
  dup_found c mem none s = some (negsuc 0, s)
  dup_found c mem (some f) s =
      with_new (ufile_alloc mem s.files) (λ n u. copy_ufile c f.type f.private n u) s

  unfoldable pub sys_dup : Calls W → Bool → ℤ → State W → Run W
  unfolding ufd2ufile ufile_alloc ufile_free set_ufile
  sys_dup c mem (negsuc n) s = some (negsuc 0, s)
  sys_dup c mem (pos n) s = dup_found c mem (ufd2ufile n s.files) s

  -- The pipe of `sys_pipe2` is at `a` in memory that holds the bytes of `b`; kmalloc may have given
  -- none, and the two entries get the null pointer.
  abbrev pub pipe_ends : Option ℕ → (ℕ → ℕ) → ℕ → ℕ → State W → Run W
  pipe_ends none b n m s =
      some (pos 0, record s { files = set_ufile m pipeout 0 (set_ufile n pipein 0 s.files) })
  pipe_ends (some a) b n m s = some (
    pos 0,
    record s {
      files = set_ufile m pipeout a (set_ufile n pipein a s.files);
      pipes = set_pipe a (some (new_pipe b)) s.pipes;
    },
  )

  unfoldable pub sys_pipe2 : Bool → Bool → Option ℕ → (ℕ → ℕ) → State W → Run W
  unfolding ufile_alloc set_ufile
  sys_pipe2 mem mem' o b s =
      with_new (ufile_alloc mem s.files)
        (λ n u. with_new (ufile_alloc mem' u.files) (λ m v. pipe_ends o b n m v) u) s

  abbrev pub after : (State W → Run W) → Run W → Run W
  after go none = none
  after go (some (r, s)) = go s

  -- The entry that is there is closed first; the pointer to the source stays as it is.
  abbrev pub dup_to : Calls W → Bool → ℕ → Ufile → Option Ufile → State W → Run W
  dup_to c mem m f none s =
      with_new (ufile_alloc_by_fd mem m s.files) (λ n u. copy_ufile c f.type f.private n u) s
  dup_to c mem m f (some g) s =
      after (copy_ufile c f.type f.private g.ufd) (close_private c g.type g.private s)

  abbrev pub dup2_found : Calls W → Bool → ℕ → Option Ufile → State W → Run W
  dup2_found c mem m none s = some (negsuc 0, s)
  dup2_found c mem m (some f) s = dup_to c mem m f (ufd2ufile m s.files) s

  unfoldable pub sys_dup2 : Calls W → Bool → ℤ → ℤ → State W → Run W
  unfolding ufd2ufile ufile_alloc_by_fd ufile_free set_ufile
  sys_dup2 c mem (negsuc n) m s = some (negsuc 0, s)
  sys_dup2 c mem (pos n) (negsuc m) s = some (negsuc 0, s)
  sys_dup2 c mem (pos n) (pos m) s = dup2_found c mem m (ufd2ufile n s.files) s
