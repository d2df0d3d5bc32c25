-- ===== src/Ufiles/Close.antt =====
-- `sys_close` and the counts of pipes, os/kernel/fs.c.
use os_risc_v.Prelude.{
  ℕ, suc, ◌≡◌, ◌≢◌, refl, ◌∙◌, ap, true, false, ◌&&◌, Bool, none, some, ◌==◌, Bool-cases, inl, inr,
  Option, Option-cases, arith, ℤ, pos, negsuc,
}
use mathlib.Core.Path.{subst}
use os_risc_v.Pipe.{Pipe}
use os_risc_v.Pipe.Close.{
  UfileType, stdin, stdout, stderr, pipein, pipeout, link, file, dir, pipe_close, close-in,
  close-out,
}
use os_risc_v.Ufiles.{
  ufile_free, ufd2ufile, Calls, State, close_end, closed_file, close_private, drop_ufile, sys_close,
}
use os_risc_v.Ufiles.Table.{is_end}
use os_risc_v.Ufiles.Refs.{
  Counts, all_ends, IsReferred, Keeps, hit, count_ends-free, Rises-free, ufd2ufile-ufd, refer-set,
  refer-same,
}

Counts-in : (i o : ℕ) (p : Pipe) → Counts (suc i) o (some p) → Counts i o (pipe_close pipein p).1
Counts-in i o p c =
    rw (close-in p (omega (arith, c.0))) (elim (Bool-cases (p.r_ref == 1 && p.w_ref == 0)) [
      | inl e ↦ rw e (ground (arith, e, c))
      | inr e ↦ rw e (omega (arith, c.0), c.1)
    ])

Counts-out : (i o : ℕ) (p : Pipe) → Counts i (suc o) (some p) → Counts i o (pipe_close pipeout p).1
Counts-out i o p c =
    rw (close-out p (omega (arith, c.1))) (elim (Bool-cases (p.r_ref == 0 && p.w_ref == 1)) [
      | inl e ↦ rw e (ground (arith, e, c))
      | inr e ↦ rw e (c.0, omega (arith, c.1))
    ])

pub end-elsewhere : (r : Bool) (b a : ℕ) (t : UfileType) → b ≢ a → is_end r b t a ≡ 0
end-elsewhere r b a pipein d = ground (arith, d)
end-elsewhere r b a pipeout d = ground (arith, d)
end-elsewhere r b a t d = refl

module _ {W : Type 0} (others : Bool → ℕ → ℕ) (s : State W) (i : IsReferred others s) where
  -- The end at `n` goes, and the pipe becomes what `pipe_close` makes of it.
  close_in-Keeps :
      (n a : ℕ) (o : Option Pipe)
      → hit true a (ufd2ufile n s.files) ≡ 1
      → hit false a (ufd2ufile n s.files) ≡ 0
      → ((r : Bool) (b : ℕ) → b ≢ a → hit r b (ufd2ufile n s.files) ≡ 0)
      → s.pipes a ≡ o
      → Keeps others (drop_ufile n (close_end pipein a o s))
  close_in-Keeps n a none t f z e =
      let c =
        subst (Counts (all_ends others s.files true a) (all_ends others s.files false a)) e
          (i.counts a) in
      absurd (omega (arith, c.0, t, count_ends-free true a n s.files))
  close_in-Keeps n a (some p) t f z e =
      let c =
        subst (Counts (all_ends others s.files true a) (all_ends others s.files false a)) e
          (i.counts a) in
      let gs = ufile_free n s.files in
      refer-set others s i gs a (pipe_close pipein p).1 s.world (Rises-free 0 n s.files i.rises)
        (λ r b d. omega (arith, z r b d, count_ends-free r b n s.files))
        (Counts-in (all_ends others gs true a) (all_ends others gs false a) p (
          omega (arith, c.0, t, count_ends-free true a n s.files),
          omega (arith, c.1, f, count_ends-free false a n s.files),
        ))

  close_out-Keeps :
      (n a : ℕ) (o : Option Pipe)
      → hit true a (ufd2ufile n s.files) ≡ 0
      → hit false a (ufd2ufile n s.files) ≡ 1
      → ((r : Bool) (b : ℕ) → b ≢ a → hit r b (ufd2ufile n s.files) ≡ 0)
      → s.pipes a ≡ o
      → Keeps others (drop_ufile n (close_end pipeout a o s))
  close_out-Keeps n a none t f z e =
      let c =
        subst (Counts (all_ends others s.files true a) (all_ends others s.files false a)) e
          (i.counts a) in
      absurd (omega (arith, c.1, f, count_ends-free false a n s.files))
  close_out-Keeps n a (some p) t f z e =
      let c =
        subst (Counts (all_ends others s.files true a) (all_ends others s.files false a)) e
          (i.counts a) in
      let gs = ufile_free n s.files in
      refer-set others s i gs a (pipe_close pipeout p).1 s.world (Rises-free 0 n s.files i.rises)
        (λ r b d. omega (arith, z r b d, count_ends-free r b n s.files))
        (Counts-out (all_ends others gs true a) (all_ends others gs false a) p (
          omega (arith, c.0, t, count_ends-free true a n s.files),
          omega (arith, c.1, f, count_ends-free false a n s.files),
        ))

  close_other-Keeps :
      (n : ℕ) (x : Bool × W)
      → ((r : Bool) (b : ℕ) → hit r b (ufd2ufile n s.files) ≡ 0)
      → Keeps others (drop_ufile n (closed_file x s))
  close_other-Keeps n (true, w) z =
      refer-same others s i (ufile_free n s.files) w (Rises-free 0 n s.files i.rises)
        (λ r b. omega (arith, z r b, count_ends-free r b n s.files))
  close_other-Keeps n (false, w) z =
      refer-same others s i (ufile_free n s.files) w (Rises-free 0 n s.files i.rises)
        (λ r b. omega (arith, z r b, count_ends-free r b n s.files))

  close_type-Keeps :
      (c : Calls W) (n a : ℕ) (t : UfileType)
      → ((r : Bool) (b : ℕ) → hit r b (ufd2ufile n s.files) ≡ is_end r b t a)
      → Keeps others (drop_ufile n (close_private c t a s))
  close_type-Keeps c n a pipein h =
      close_in-Keeps n a (s.pipes a) (ground (arith, h true a)) (ground (arith, h false a))
        (λ r b d. rw (h r b) (end-elsewhere r b a pipein d)) refl
  close_type-Keeps c n a pipeout h =
      close_out-Keeps n a (s.pipes a) (ground (arith, h true a)) (ground (arith, h false a))
        (λ r b d. rw (h r b) (end-elsewhere r b a pipeout d)) refl
  close_type-Keeps c n a stdin h = close_other-Keeps n (c.vfs_close a s.world) h
  close_type-Keeps c n a stdout h = close_other-Keeps n (c.vfs_close a s.world) h
  close_type-Keeps c n a stderr h = close_other-Keeps n (c.vfs_close a s.world) h
  close_type-Keeps c n a link h = close_other-Keeps n (c.vfs_close a s.world) h
  close_type-Keeps c n a file h = close_other-Keeps n (c.vfs_close a s.world) h
  close_type-Keeps c n a dir h = close_other-Keeps n (c.vfs_closedir a s.world) h

  -- `sys_close` of any descriptor, open or not, keeps the counts of all pipes right, and uses no pipe
  -- that was given back.
  pub sys_close-IsReferred : (c : Calls W) (fd : ℤ) → Keeps others (sys_close c fd s)
  unfolding sys_close
  sys_close-IsReferred c (negsuc n) = i
  sys_close-IsReferred c (pos n) = elim (Option-cases (ufd2ufile n s.files)) [
    | inl e ↦ rw e i
    | inr (f, e) ↦
        let q : ufd2ufile f.ufd s.files ≡ some f =
          ap (λ k. ufd2ufile k s.files) (ufd2ufile-ufd n f s.files e) ∙ e in
        rw e (close_type-Keeps c f.ufd f.private f.type (λ r b. ap (hit r b) q))
  ]
