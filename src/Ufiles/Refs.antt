-- ===== src/Ufiles/Refs.antt =====
-- The ends of pipes that the open files of a process stand for, and the counts of the pipes,
-- os/kernel/fs.c and pipe.c. The ends in the lists of other processes are a function.
use os_risc_v.Prelude.{
  ℕ, ◌+◌, ◌≤◌, ◌≡◌, ◌≢◌, true, false, Bool, none, some, List, [], ◌∷◌, ◌==◌, Bool-cases, inl, inr,
  Option, arith,
}
use os_risc_v.Pipe.{Pipe}
use os_risc_v.Pipe.Close.{UfileType}
use os_risc_v.Ufiles.{Ufile, ufile_free, ufd2ufile, set_ufile, State, set_pipe, Run}
use os_risc_v.Ufiles.Table.{Rises, is_end, count_ends}

-- The counts of a pipe are the numbers of its ends, and one that was given back has none.
abbrev pub Counts : ℕ → ℕ → Option Pipe → Type 0
Counts i o none = (i ≡ 0) × (o ≡ 0)
Counts i o (some p) = (i ≡ p.r_ref) × (o ≡ p.w_ref)

abbrev pub all_ends : (Bool → ℕ → ℕ) → List Ufile → Bool → ℕ → ℕ
all_ends others fs r a = count_ends r a fs + others r a

module _ {W : Type 0} where
  pub record IsReferred (others : Bool → ℕ → ℕ) (s : State W) : Type 0 where
    pub rises : Rises 0 s.files
    pub counts :
        (a : ℕ)
        → Counts (all_ends others s.files true a) (all_ends others s.files false a) (s.pipes a)

  -- The run uses no pipe that was given back, and ends with right counts.
  abbrev pub Keeps : (Bool → ℕ → ℕ) → Run W → Type 0
  Keeps others none = ⊥
  Keeps others (some (r, u)) = IsReferred others u

-- 1 where the entry is an end of the pipe.
abbrev pub hit : Bool → ℕ → Option Ufile → ℕ
hit r a none = 0
hit r a (some f) = is_end r a f.type f.private

pub count_ends-free :
    (r : Bool) (a n : ℕ) (fs : List Ufile)
    → count_ends r a (ufile_free n fs) + hit r a (ufd2ufile n fs) ≡ count_ends r a fs
unfolding ufile_free ufd2ufile
count_ends-free r a n [] = omega arith
count_ends-free r a n (f ∷ fs) = ground (arith, count_ends-free r a n fs)

pub count_ends-set :
    (r : Bool) (a n b : ℕ) (t : UfileType) (f : Ufile) (fs : List Ufile)
    → ufd2ufile n fs ≡ some f
    → count_ends r a (set_ufile n t b fs) + hit r a (some f) ≡ count_ends r a fs + is_end r a t b
unfolding set_ufile ufd2ufile
count_ends-set r a n b t f [] e = absurd (cc)
count_ends-set r a n b t f (g ∷ fs) e = ground (arith, count_ends-set r a n b t f fs)

Rises-le : (m n : ℕ) (fs : List Ufile) → n ≤ m → Rises m fs → Rises n fs
Rises-le m n [] l r = tt
Rises-le m n (f ∷ fs) l r = (omega (arith, l, r.0), r.1)

pub Rises-free : (m n : ℕ) (fs : List Ufile) → Rises m fs → Rises m (ufile_free n fs)
unfolding ufile_free
Rises-free m n [] r = tt
Rises-free m n (f ∷ fs) r = elim (Bool-cases (f.ufd == n)) [
  | inl e ↦ rw e (Rises-le (f.ufd + 1) m fs (omega (arith, r.0)) r.1)
  | inr e ↦ rw e (r.0, Rises-free (f.ufd + 1) n fs r.1)
]

pub Rises-set :
    (m n b : ℕ) (t : UfileType) (fs : List Ufile) → Rises m fs → Rises m (set_ufile n t b fs)
unfolding set_ufile
Rises-set m n b t [] r = tt
Rises-set m n b t (f ∷ fs) r = elim (Bool-cases (f.ufd == n)) [
  | inl e ↦ rw e r
  | inr e ↦ rw e (r.0, Rises-set (f.ufd + 1) n b t fs r.1)
]

pub ufd2ufile-ufd : (n : ℕ) (f : Ufile) (fs : List Ufile) → ufd2ufile n fs ≡ some f → f.ufd ≡ n
unfolding ufd2ufile
ufd2ufile-ufd n f [] e = absurd (cc)
ufd2ufile-ufd n f (g ∷ fs) e = ground (arith, e, ufd2ufile-ufd n f fs)

module _ {W : Type 0} (others : Bool → ℕ → ℕ) (s : State W) (i : IsReferred others s) where
  -- New entries and a new value for the pipe at `a`.
  pub refer-set :
      (gs : List Ufile) (a : ℕ) (o : Option Pipe) (w : W)
      → Rises 0 gs
      → ((r : Bool) (b : ℕ) → b ≢ a → count_ends r b gs ≡ count_ends r b s.files)
      → Counts (all_ends others gs true a) (all_ends others gs false a) o
      → IsReferred others (record s { files = gs; pipes = set_pipe a o s.pipes; world = w })
  refer-set gs a o w r e c = record {
    rises = r;
    counts = λ b. elim (Bool-cases (b == a)) [
      | inl q ↦ let z : b ≡ a = ground (arith, q) in rw q (rw z c)
      | inr q ↦ let d : b ≢ a = ground (arith, q) in rw (q, e true b d, e false b d) (i.counts b)
    ];
  }

  pub refer-same :
      (gs : List Ufile) (w : W)
      → Rises 0 gs
      → ((r : Bool) (b : ℕ) → count_ends r b gs ≡ count_ends r b s.files)
      → IsReferred others (record s { files = gs; world = w })
  refer-same gs w r e = record { rises = r; counts = λ b. rw (e true b, e false b) (i.counts b) }
