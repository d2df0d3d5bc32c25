-- ===== src/Ufiles/Table.antt =====
-- The list of descriptors of a process, os/kernel/fs.c.
use os_risc_v.Prelude.{
  ℕ, ◌+◌, ◌≤◌, ◌<◌, ◌≡◌, ◌≢◌, refl, true, false, ◌&&◌, ◌||◌, Bool, not, none, some, List, [], ◌∷◌,
  ◌==◌, ltb, ltb→lt, Bool-cases, ◌⊎◌, inl, inr, arith, if◌then◌else◌,
}
use os_risc_v.Pipe.Close.{UfileType, pipein, pipeout}
use os_risc_v.Ufiles.{Ufile, new_ufile, alloc_loop, by_fd_loop, ufile_alloc_by_fd, ufd2ufile}

-- The descriptors rise from `m` on.
abbrev pub Rises : ℕ → List Ufile → Type 0
Rises m [] = Unit
Rises m (f ∷ fs) = (m ≤ f.ufd) × Rises (f.ufd + 1) fs

abbrev pub has_fd : ℕ → List Ufile → Bool
has_fd n [] = false
has_fd n (f ∷ fs) = (f.ufd == n) || has_fd n fs

-- The read end is `true`.
abbrev pub is_end : Bool → ℕ → UfileType → ℕ → ℕ
is_end r a pipein b = if r && a == b then 1 else 0
is_end r a pipeout b = if not r && a == b then 1 else 0
is_end r a other b = 0

abbrev pub count_ends : Bool → ℕ → List Ufile → ℕ
count_ends r a [] = 0
count_ends r a (f ∷ fs) = is_end r a f.type f.private + count_ends r a fs

-- Every descriptor is below `m`.
abbrev pub Below : ℕ → List Ufile → Type 0
Below m [] = Unit
Below m (f ∷ fs) = (f.ufd < m) × Below m fs

-- What the list is after a new descriptor, which was free, has come into it.
pub record Grown (m n : ℕ) (fs gs : List Ufile) : Type 0 where
  pub rises : Rises m gs
  pub free : has_fd n fs ≡ false
  pub found : ufd2ufile n gs ≡ some (new_ufile n)
  pub others : (k : ℕ) → k ≢ n → ufd2ufile k gs ≡ ufd2ufile k fs
  pub ends : (r : Bool) (a : ℕ) → count_ends r a gs ≡ count_ends r a fs

Rises-out : (m n : ℕ) (fs : List Ufile) → Rises m fs → n < m → has_fd n fs ≡ false
Rises-out m n [] r l = refl
Rises-out m n (f ∷ fs) r l = ground (arith, r, Rises-out (f.ufd + 1) n fs)

Grown-last :
    (m n : ℕ) (f : Ufile) → m ≤ f.ufd → f.ufd < n → Grown m n (f ∷ []) (f ∷ new_ufile n ∷ [])
unfolding ufd2ufile
Grown-last m n f l h = record {
  rises = (l, (omega (arith, h), tt));
  free = ground (arith, h);
  found = ground (arith, h);
  others = λ k d. ground (arith, d);
  ends = λ r a. ground (arith);
}

Grown-here :
    (m n : ℕ) (f g : Ufile) (fs : List Ufile)
    → Rises m (f ∷ g ∷ fs)
    → f.ufd < n
    → n < g.ufd
    → Grown m n (f ∷ g ∷ fs) (f ∷ new_ufile n ∷ g ∷ fs)
unfolding ufd2ufile
Grown-here m n f g fs r l h = record {
  rises = (r.0, (omega (arith, l), (omega (arith, h), r.1.1)));
  free = ground (arith, l, h, Rises-out (g.ufd + 1) n fs r.1.1);
  found = ground (arith, l);
  others = λ k d. ground (arith, d);
  ends = λ r a. ground (arith);
}

Grown-cons :
    (m n : ℕ) (f : Ufile) (fs gs : List Ufile)
    → m ≤ f.ufd
    → f.ufd < n
    → Grown (f.ufd + 1) n fs gs
    → Grown m n (f ∷ fs) (f ∷ gs)
unfolding ufd2ufile
Grown-cons m n f fs gs l h g = record {
  rises = (l, g.rises);
  free = ground (arith, h, g.free);
  found = ground (arith, h, g.found);
  others = λ k d. ground (arith, g.others k d);
  ends = λ r a. ground (arith, g.ends r a);
}

pub alloc_loop-Grown :
    (m : ℕ) (f : Ufile) (fs : List Ufile)
    → Rises m (f ∷ fs)
    → (n : ℕ) × (gs : List Ufile) × (alloc_loop (f ∷ fs) ≡ some (n, gs))
      × Grown m n (f ∷ fs) gs
      × (f.ufd < n)
      × ((k : ℕ) → f.ufd < k → k < n → has_fd k (f ∷ fs) ≡ true)
      × ((z : ℕ) → Below z (f ∷ fs) → n ≤ z)
unfolding alloc_loop
alloc_loop-Grown m f [] r = (
  f.ufd + 1,
  f ∷ new_ufile (f.ufd + 1) ∷ [],
  refl,
  Grown-last m (f.ufd + 1) f r.0 (omega arith),
  omega arith,
  λ k l h. absurd (omega (arith, l, h)),
  λ z b. omega (arith, b.0),
)
alloc_loop-Grown m f (g ∷ fs) r = elim (Bool-cases (ltb (f.ufd + 1) g.ufd)) [
  | inl e ↦ (
    f.ufd + 1,
    f ∷ new_ufile (f.ufd + 1) ∷ g ∷ fs,
    rw e refl,
    Grown-here m (f.ufd + 1) f g fs r (omega arith) (ltb→lt (f.ufd + 1) g.ufd e),
    omega arith,
    λ k l h. absurd (omega (arith, l, h)),
    λ z b. omega (arith, b.0),
  )
  | inr e ↦
      let (n, gs, q, w, l, a, u) = alloc_loop-Grown (f.ufd + 1) g fs r.1 in
      (
        n,
        f ∷ gs,
        rw (e, q) refl,
        Grown-cons m n f (g ∷ fs) gs r.0 (omega (arith, l, r.1.0)) w,
        omega (arith, l, r.1.0),
        λ k i h. ground (arith, e, i, h, r.1.0, a k),
        λ z b. u z b.1,
      )
]

by_fd_loop-Grown :
    (m n : ℕ) (f : Ufile) (fs : List Ufile)
    → Rises m (f ∷ fs)
    → f.ufd < n
    → has_fd n fs ≡ false
    → (gs : List Ufile) × (by_fd_loop n (f ∷ fs) ≡ some (n, gs)) × Grown m n (f ∷ fs) gs
unfolding by_fd_loop
by_fd_loop-Grown m n f [] r l h =
    let z : (f.ufd == n) ≡ false = ground (arith, l) in
    (f ∷ new_ufile n ∷ [], rw z refl, Grown-last m n f r.0 l)
by_fd_loop-Grown m n f (g ∷ fs) r l h =
    let z : (f.ufd == n) ≡ false = ground (arith, l) in
    let y : ltb f.ufd n ≡ true = ground (arith, l) in
    elim (Bool-cases (ltb n g.ufd)) [
      | inl e ↦ (
        f ∷ new_ufile n ∷ g ∷ fs,
        rw (z, e, y) refl,
        Grown-here m n f g fs r l (ltb→lt n g.ufd e),
      )
      | inr e ↦
          let d : g.ufd < n = ground (arith, e, h) in
          let (gs, q, w) = by_fd_loop-Grown (f.ufd + 1) n g fs r.1 d (ground (arith, h)) in
          (f ∷ gs, rw (z, e, q) refl, Grown-cons m n f (g ∷ fs) gs r.0 l w)
    ]

by_fd_loop-taken :
    (m n : ℕ) (f : Ufile) (fs : List Ufile)
    → Rises m (f ∷ fs)
    → has_fd n (f ∷ fs) ≡ true
    → by_fd_loop n (f ∷ fs) ≡ none
unfolding by_fd_loop
by_fd_loop-taken m n f [] r h = ground (arith, h)
by_fd_loop-taken m n f (g ∷ fs) r h = elim (Bool-cases (f.ufd == n)) [
  | inl e ↦ rw e refl
  | inr e ↦
      let i : has_fd n (g ∷ fs) ≡ true = ground (arith, h, e) in
      let l : ltb n g.ufd ≡ false =
        ground (arith, i, Rises-out g.ufd n (g ∷ fs) (omega arith, r.1.1)) in
      rw (e, l, by_fd_loop-taken (f.ufd + 1) n g fs r.1 i) refl
]

by_fd-none :
    (m n : ℕ) (f : Ufile) (fs : List Ufile)
    → Rises m (f ∷ fs)
    → (n < f.ufd) ⊎ (has_fd n (f ∷ fs) ≡ true)
    → ufile_alloc_by_fd true n (f ∷ fs) ≡ none
unfolding ufile_alloc_by_fd
by_fd-none m n f fs r (inl l) = ground (arith, l)
by_fd-none m n f fs r (inr h) = ground (arith, by_fd_loop-taken m n f fs r h)

-- `ufile_alloc_by_fd` on a list that rises enters the given descriptor where it is free and not below
-- the first one, and leaves the other entries and the order; where it is taken or below the first one
-- there is no result.
pub ufile_alloc_by_fd-Grown :
    (m n : ℕ) (f : Ufile) (fs : List Ufile)
    → Rises m (f ∷ fs)
    → (f.ufd < n
        → has_fd n fs ≡ false
        → (gs : List Ufile) × (ufile_alloc_by_fd true n (f ∷ fs) ≡ some (n, gs))
          × Grown m n (f ∷ fs) gs)
      × ((n < f.ufd) ⊎ (has_fd n (f ∷ fs) ≡ true) → ufile_alloc_by_fd true n (f ∷ fs) ≡ none)
unfolding ufile_alloc_by_fd
ufile_alloc_by_fd-Grown m n f fs r = (
  λ l h. let z : ltb n f.ufd ≡ false = ground (arith, l) in rw z (by_fd_loop-Grown m n f fs r l h),
  λ o. by_fd-none m n f fs r o,
)
