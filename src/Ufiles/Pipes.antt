-- ===== src/Ufiles/Pipes.antt =====
-- `sys_pipe2` and `sys_dup2`, os/kernel/fs.c.
use os_risc_v.Prelude.{
  ℕ, ◌≡◌, ◌≢◌, refl, sym, ◌∙◌, ap, true, false, Bool, none, some, List, [], ◌∷◌, ltb, ltb→lt,
  Bool-cases, ◌⊎◌, inl, inr, Option-cases, arith, pos,
}
use mathlib.Core.Path.{subst}
use os_risc_v.Pipe.{Pipe, new_pipe}
use os_risc_v.Pipe.Close.{UfileType, pipein, pipeout, pipe_close, close-in}
use os_risc_v.Ufiles.{
  Ufile, new_ufile, ufile_alloc_by_fd, ufd2ufile, set_ufile, Calls, State, pipe_ends, sys_pipe2,
  sys_dup2, copy_ufile, after, close_private, dup2_found, dup_to,
}
use os_risc_v.Ufiles.Table.{Rises, has_fd, Grown, ufile_alloc_by_fd-Grown}
use os_risc_v.Ufiles.Refs.{
  Counts, all_ends, IsReferred, Keeps, count_ends-set, Rises-set, refer-set,
}
use os_risc_v.Ufiles.Close.{end-elsewhere}
use os_risc_v.Ufiles.Dup.{alloc-cases, copy_ufile-Keeps, new-IsReferred, hit-le}

ufd2ufile-set :
    (k n b : ℕ) (t : UfileType) (fs : List Ufile)
    → k ≢ n
    → ufd2ufile k (set_ufile n t b fs) ≡ ufd2ufile k fs
unfolding ufd2ufile set_ufile
ufd2ufile-set k n b t [] d = refl
ufd2ufile-set k n b t (f ∷ fs) d = ground (arith, d, ufd2ufile-set k n b t fs d)

has_fd-found : (n : ℕ) (f : Ufile) (fs : List Ufile) → ufd2ufile n fs ≡ some f → has_fd n fs ≡ true
unfolding ufd2ufile
has_fd-found n f [] e = absurd (cc)
has_fd-found n f (g ∷ fs) e = ground (arith, e, has_fd-found n f fs)

has_fd-none : (n : ℕ) (fs : List Ufile) → ufd2ufile n fs ≡ none → has_fd n fs ≡ false
unfolding ufd2ufile
has_fd-none n [] e = refl
has_fd-none n (f ∷ fs) e = ground (arith, e, has_fd-none n fs)

by_fd-cases :
    (mem : Bool) (n : ℕ) (fs : List Ufile)
    → Rises 0 fs
    → ufd2ufile n fs ≡ none
    → (ufile_alloc_by_fd mem n fs ≡ none)
      ⊎ ((gs : List Ufile) × (ufile_alloc_by_fd mem n fs ≡ some (n, gs)) × Grown 0 n fs gs)
unfolding ufile_alloc_by_fd
by_fd-cases mem n [] r e = inl refl
by_fd-cases false n (f ∷ fs) r e = inl refl
by_fd-cases true n (f ∷ fs) r e =
    let h = has_fd-none n (f ∷ fs) e in
    let (free, taken) = ufile_alloc_by_fd-Grown 0 n f fs r in
    elim (Bool-cases (ltb n f.ufd)) [
      | inl l ↦ inl (taken (inl (ltb→lt n f.ufd l)))
      | inr l ↦ inr (free (ground (arith, l, h)) (ground (arith, h)))
    ]

module _ {W : Type 0} (others : Bool → ℕ → ℕ) where
  -- Two new entries become the ends of a new pipe.
  pipe_ends-Keeps :
      (s : State W) (i : IsReferred others s) (a n m : ℕ) (b : ℕ → ℕ)
      → s.pipes a ≡ none
      → n ≢ m
      → ufd2ufile n s.files ≡ some (new_ufile n)
      → ufd2ufile m s.files ≡ some (new_ufile m)
      → Keeps others (pipe_ends (some a) b n m s)
  pipe_ends-Keeps s i a n m b z d e f =
      let gs = set_ufile n pipein a s.files in
      let c =
        subst (Counts (all_ends others s.files true a) (all_ends others s.files false a)) z
          (i.counts a) in
      let f' : ufd2ufile m gs ≡ some (new_ufile m) =
        ufd2ufile-set m n a pipein s.files (λ q. d (sym q)) ∙ f in
      refer-set others s i (set_ufile m pipeout a gs) a (some (new_pipe b)) s.world
        (Rises-set 0 m a pipeout gs (Rises-set 0 n a pipein s.files i.rises))
        (λ r k l. omega (
          arith,
          count_ends-set r k n a pipein (new_ufile n) s.files e,
          count_ends-set r k m a pipeout (new_ufile m) gs f',
          end-elsewhere r k a pipein l,
          end-elsewhere r k a pipeout l,
        ))
        (
          ground (
            arith,
            c,
            count_ends-set true a n a pipein (new_ufile n) s.files e,
            count_ends-set true a m a pipeout (new_ufile m) gs f',
          ),
          ground (
            arith,
            c,
            count_ends-set false a n a pipein (new_ufile n) s.files e,
            count_ends-set false a m a pipeout (new_ufile m) gs f',
          ),
        )

  -- `sys_pipe2` with the new pipe at an address where there is none keeps the counts of all pipes
  -- right, also where there is no memory for one of the entries.
  pub sys_pipe2-IsReferred :
      (s : State W) (i : IsReferred others s) (mem mem' : Bool) (a : ℕ) (b : ℕ → ℕ)
      → s.pipes a ≡ none
      → Keeps others (sys_pipe2 mem mem' (some a) b s)
  unfolding sys_pipe2
  sys_pipe2-IsReferred s i mem mem' a b z = elim (alloc-cases mem s.files i.rises) [
    | inl q ↦ rw q i
    | inr (n, gs, q, g) ↦
        let u : State W = record s { files = gs } in
        let j = new-IsReferred others s i n gs g in
        rw q (elim (alloc-cases mem' gs j.rises) [
          | inl q' ↦ rw q' j
          | inr (m, hs, q', h) ↦
              let d : n ≢ m =
                λ e. ground (arith, has_fd-found n (new_ufile n) gs g.found, e, h.free) in
              rw q' (
                pipe_ends-Keeps (record u { files = hs }) (new-IsReferred others u j m hs h) a n m b
                  z d (h.others n d ∙ g.found) h.found)
        ])
  ]

  -- `sys_dup2` to a descriptor that is not open keeps the counts of all pipes right, and uses no pipe
  -- that was given back.
  pub sys_dup2-IsReferred :
      (s : State W) (i : IsReferred others s) (c : Calls W) (mem : Bool) (n m : ℕ)
      → ufd2ufile m s.files ≡ none
      → Keeps others (sys_dup2 c mem (pos n) (pos m) s)
  unfolding sys_dup2
  sys_dup2-IsReferred s i c mem n m z = elim (Option-cases (ufd2ufile n s.files)) [
    | inl e ↦ rw e i
    | inr (f, e) ↦
        rw (e, z)
          (elim (by_fd-cases mem m s.files i.rises z) [
            | inl q ↦ rw q i
            | inr (gs, q, g) ↦ rw q (
                copy_ufile-Keeps others (record s { files = gs }) (new-IsReferred others s i m gs g)
                  m (new_ufile m) g.found (λ r b. refl) c f.type f.private
                  (λ r. omega (arith, hit-le r f.private n f s.files e, g.ends r f.private)))
          ])
  ]

copy-closed :
    {W : Type 0} (c : Calls W) (s : State W) (a m : ℕ) (p : Pipe)
    → s.pipes a ≡ some p
    → p.r_ref ≡ 1
    → p.w_ref ≡ 0
    → after (copy_ufile c pipein a m) (close_private c pipein a s) ≡ none
copy-closed c s a m p q r w =
    let g : (pipe_close pipein p).1 ≡ none = close-in p (omega (arith, r)) ∙ ground (arith, r, w) in
    rw (q, g) (ground arith)

-- `sys_dup2` of a descriptor to itself, where it is the last end of a pipe, goes on with the pipe that
-- it has just given back.
pub sys_dup2-fault :
    {W : Type 0} (c : Calls W) (mem : Bool) (n : ℕ) (s : State W) (f : Ufile) (p : Pipe)
    → ufd2ufile n s.files ≡ some f
    → f.type ≡ pipein
    → s.pipes f.private ≡ some p
    → p.r_ref ≡ 1
    → p.w_ref ≡ 0
    → sys_dup2 c mem (pos n) (pos n) s ≡ none
unfolding sys_dup2
sys_dup2-fault c mem n s f p e t q r w =
    ap (λ o. dup2_found c mem n o s) e
    ∙ ap (λ o. dup_to c mem n f o s) e
    ∙ (subst (λ k. after (copy_ufile c k f.private f.ufd) (close_private c k f.private s) ≡ none)
        (sym t) (copy-closed c s f.private f.ufd p q r w))
