-- ===== src/Ufiles/Dup.antt =====
-- `sys_dup` and the counts of pipes, os/kernel/fs.c.
use os_risc_v.Prelude.{
  ℕ, ◌+◌, ◌≤◌, ◌<◌, ◌≡◌, refl, ap, true, false, Bool, none, some, List, [], ◌∷◌, ◌⊎◌, inl, inr,
  Option, Option-cases, arith, ℤ, pos, negsuc,
}
use mathlib.Core.Path.{subst}
use os_risc_v.Pipe.{Pipe}
use os_risc_v.Pipe.Close.{UfileType, stdin, stdout, stderr, pipein, pipeout, link, file, dir}
use os_risc_v.Ufiles.{
  Ufile, new_ufile, ufile_alloc, ufile_free, ufd2ufile, set_ufile, Calls, State, opened, more_ends,
  share_pipe, copy_ufile, sys_dup,
}
use os_risc_v.Ufiles.Table.{Rises, is_end, count_ends, Grown, alloc_loop-Grown}
use os_risc_v.Ufiles.Refs.{
  Counts, all_ends, IsReferred, Keeps, hit, count_ends-free, count_ends-set, Rises-free, Rises-set,
  refer-set, refer-same,
}
use os_risc_v.Ufiles.Close.{end-elsewhere}

-- A type that stands for no end of a pipe.
abbrev IsPlain : UfileType → Type 0
IsPlain pipein = ⊥
IsPlain pipeout = ⊥
IsPlain t = Unit

is_end-plain : (r : Bool) (b a : ℕ) (t : UfileType) → IsPlain t → is_end r b t a ≡ 0
is_end-plain r b a pipein p = absurd p
is_end-plain r b a pipeout p = absurd p
is_end-plain r b a t p = refl

pub hit-le :
    (r : Bool) (a n : ℕ) (f : Ufile) (fs : List Ufile)
    → ufd2ufile n fs ≡ some f
    → hit r a (some f) ≤ count_ends r a fs
hit-le r a n f fs e = omega (arith, ap (hit r a) e, count_ends-free r a n fs)

module _ {W : Type 0} (others : Bool → ℕ → ℕ) (s : State W) (i : IsReferred others s) where
  -- The entry `n` is there, and is no end of a pipe.
  module _ (n : ℕ) (g : Ufile) (e : ufd2ufile n s.files ≡ some g)
      (z : (r : Bool) (b : ℕ) → hit r b (some g) ≡ 0) where
    opened-Keeps : (t : UfileType) (x : Option ℕ × W) → IsPlain t → Keeps others (opened t n x s)
    opened-Keeps t (none, w) p =
        refer-same others s i (ufile_free n s.files) w (Rises-free 0 n s.files i.rises)
          (λ r b. omega (arith, ap (hit r b) e, z r b, count_ends-free r b n s.files))
    opened-Keeps t (some a, w) p =
        refer-same others s i (set_ufile n t a s.files) w (Rises-set 0 n a t s.files i.rises)
          (λ r b.
            omega (arith, z r b, is_end-plain r b a t p, count_ends-set r b n a t g s.files e))

    share_pipe-Keeps :
        (t : UfileType) (a : ℕ) (o : Option Pipe)
        → 0 < count_ends true a s.files + count_ends false a s.files
        → s.pipes a ≡ o
        → ((p : Pipe)
            → (is_end true a t a + p.r_ref ≡ (more_ends t p).r_ref)
              × (is_end false a t a + p.w_ref ≡ (more_ends t p).w_ref))
        → Keeps others (share_pipe t n a o s)
    share_pipe-Keeps t a none l q m =
        let c =
          subst (Counts (all_ends others s.files true a) (all_ends others s.files false a)) q
            (i.counts a) in
        absurd (omega (arith, c.0, c.1, l))
    share_pipe-Keeps t a (some p) l q m =
        let c =
          subst (Counts (all_ends others s.files true a) (all_ends others s.files false a)) q
            (i.counts a) in
        refer-set others s i (set_ufile n t a s.files) a (some (more_ends t p)) s.world
          (Rises-set 0 n a t s.files i.rises)
          (λ r b d.
            omega (arith, z r b, end-elsewhere r b a t d, count_ends-set r b n a t g s.files e))
          (
            omega (arith, c.0, (m p).0, z true a, count_ends-set true a n a t g s.files e),
            omega (arith, c.1, (m p).1, z false a, count_ends-set false a n a t g s.files e),
          )

    pub copy_ufile-Keeps :
        (c : Calls W) (t : UfileType) (a : ℕ)
        → ((r : Bool) → is_end r a t a ≤ count_ends r a s.files)
        → Keeps others (copy_ufile c t a n s)
    copy_ufile-Keeps c stdin a l = opened-Keeps stdin (c.open_std stdin s.world) tt
    copy_ufile-Keeps c stdout a l = opened-Keeps stdout (c.open_std stdout s.world) tt
    copy_ufile-Keeps c stderr a l = opened-Keeps stderr (c.open_std stderr s.world) tt
    copy_ufile-Keeps c link a l = i
    copy_ufile-Keeps c file a l = opened-Keeps file (c.reopen a s.world) tt
    copy_ufile-Keeps c dir a l = opened-Keeps dir (c.reopen_dir a s.world) tt
    copy_ufile-Keeps c pipein a l =
        share_pipe-Keeps pipein a (s.pipes a) (ground (arith, l true)) refl
          (λ p. (ground arith, ground arith))
    copy_ufile-Keeps c pipeout a l =
        share_pipe-Keeps pipeout a (s.pipes a) (ground (arith, l false)) refl
          (λ p. (ground arith, ground arith))

-- What `ufile_alloc` comes to on a list that rises.
abbrev pub Allocated : Bool → List Ufile → Type 0
Allocated mem fs =
    (ufile_alloc mem fs ≡ none)
    ⊎ ((n : ℕ) × (gs : List Ufile) × (ufile_alloc mem fs ≡ some (n, gs)) × Grown 0 n fs gs)

pub alloc-cases : (mem : Bool) (fs : List Ufile) → Rises 0 fs → Allocated mem fs
unfolding ufile_alloc
alloc-cases false fs r = inl refl
alloc-cases true [] r = inl refl
alloc-cases true (f ∷ fs) r =
    let (n, gs, e, g, l, a, b) = alloc_loop-Grown 0 f fs r in inr (n, gs, e, g)

module _ {W : Type 0} (others : Bool → ℕ → ℕ) (s : State W) (i : IsReferred others s) where
  pub new-IsReferred :
      (n : ℕ) (gs : List Ufile) → Grown 0 n s.files gs → IsReferred others (record s { files = gs })
  new-IsReferred n gs g = refer-same others s i gs s.world g.rises g.ends

  -- `sys_dup` of any descriptor, with memory or without and whatever the file system answers, keeps
  -- the counts of all pipes right, and uses no pipe that was given back.
  pub sys_dup-IsReferred : (c : Calls W) (mem : Bool) (fd : ℤ) → Keeps others (sys_dup c mem fd s)
  unfolding sys_dup
  sys_dup-IsReferred c mem (negsuc n) = i
  sys_dup-IsReferred c mem (pos n) = elim (Option-cases (ufd2ufile n s.files)) [
    | inl e ↦ rw e i
    | inr (f, e) ↦ rw e (elim (alloc-cases mem s.files i.rises) [
      | inl q ↦ rw q i
      | inr (m, gs, q, g) ↦ rw q (
          copy_ufile-Keeps others (record s { files = gs }) (new-IsReferred m gs g) m (new_ufile m)
            g.found (λ r b. refl) c f.type f.private
            (λ r. omega (arith, hit-le r f.private n f s.files e, g.ends r f.private)))
    ])
  ]
