-- ===== src/CString/Compare.antt =====
-- The comparisons of strings and of memory.
use os_risc_v.Prelude.{
  ℕ, zero, suc, ◌+◌, ◌<◌, ◌≡◌, refl, ◌↔◌, Bool, true, false, some, List, [], ◌∷◌, arith, ◌==◌, ltb,
  if◌then◌else◌, length, take, ℤ, pos, is_neg,
}
use os_risc_v.CString.{Ptr, Memory, byte_diff, strcmp, strncmp, memcmp}
use os_risc_v.CString.Text.{Text}

-- The lexicographic order of byte strings.
abbrev pub lex_lt : List ℕ → List ℕ → Bool
lex_lt xs [] = false
lex_lt [] (y ∷ ys) = true
lex_lt (x ∷ xs) (y ∷ ys) = if x == y then lex_lt xs ys else ltb x y

-- `r` is 0 exactly for equal strings, and negative exactly where the first comes before.
abbrev pub Compares : List ℕ → List ℕ → ℤ → Type 0
Compares xs ys r = ((r ≡ pos 0) ↔ (xs ≡ ys)) × ((is_neg r ≡ true) ↔ (lex_lt xs ys ≡ true))

abbrev pub NonZero : List ℕ → Type 0
NonZero [] = Unit
NonZero (x ∷ xs) = (0 < x) × NonZero xs

-- The difference at the first place where two strings differ; the end counts as 0.
unfoldable pub compare_text : List ℕ → List ℕ → ℤ
compare_text [] [] = pos 0
compare_text [] (y ∷ ys) = byte_diff 0 y
compare_text (x ∷ xs) [] = byte_diff x 0
compare_text (x ∷ xs) (y ∷ ys) = if x == y then compare_text xs ys else byte_diff x y

pub compare_text-Compares :
    (xs ys : List ℕ) → NonZero xs → NonZero ys → Compares xs ys (compare_text xs ys)
unfolding compare_text
compare_text-Compares [] [] p q = ((λ e. refl, λ e. refl), (λ e. cc, λ e. cc))
compare_text-Compares [] (y ∷ ys) p q =
    ((λ e. ground arith, λ e. cc), (λ e. refl, λ e. ground arith))
compare_text-Compares (x ∷ xs) [] p q = ((λ e. ground arith, λ e. cc), (λ e. ground arith, λ e. cc))
compare_text-Compares (x ∷ xs) (y ∷ ys) p q =
    let c = compare_text-Compares xs ys p.1 q.1 in
    (
      (λ e. ground (arith, c.0.0), λ e. ground (arith, c.0.1)),
      (λ e. ground (arith, c.1.0), λ e. ground (arith, c.1.1)),
    )

pub Text-NonZero : (m : Memory) (p : Ptr) (xs : List ℕ) → Text m p xs → NonZero xs
Text-NonZero m p [] t = tt
Text-NonZero m p (x ∷ xs) t = (t.1, Text-NonZero m (p + 1) xs t.2)

pub NonZero-take : (n : ℕ) (xs : List ℕ) → NonZero xs → NonZero (take n xs)
NonZero-take zero xs p = tt
NonZero-take (suc n) [] p = tt
NonZero-take (suc n) (x ∷ xs) p = (p.0, NonZero-take n xs p.1)

strcmp-Text :
    (f : ℕ) (m : Memory) (s1 s2 : ℕ) (xs ys : List ℕ)
    → Text m s1 xs
    → Text m s2 ys
    → length xs < f
    → strcmp f m s1 s2 ≡ some (compare_text xs ys)
unfolding strcmp compare_text
strcmp-Text zero m s1 s2 xs ys t u l = absurd (omega arith)
strcmp-Text (suc f) m s1 s2 [] [] t u l = ground arith
strcmp-Text (suc f) m s1 s2 [] (y ∷ ys) t u l = ground arith
strcmp-Text (suc f) m s1 s2 (x ∷ xs) [] t u l = ground arith
strcmp-Text (suc f) m s1 s2 (x ∷ xs) (y ∷ ys) t u l =
    ground (arith, strcmp-Text f m (s1 + 1) (s2 + 1) xs ys t.2 u.2 (omega arith))

-- `strcmp` of two strings in memory returns 0 exactly when they are equal, and a negative number
-- exactly when the first comes before the second in the lexicographic order of their bytes.
pub strcmp-Compares :
    (f : ℕ) (m : Memory) (s1 s2 : ℕ) (xs ys : List ℕ)
    → Text m s1 xs
    → Text m s2 ys
    → length xs < f
    → (r : ℤ) × (strcmp f m s1 s2 ≡ some r) × Compares xs ys r
strcmp-Compares f m s1 s2 xs ys t u l = (
  compare_text xs ys,
  strcmp-Text f m s1 s2 xs ys t u l,
  compare_text-Compares xs ys (Text-NonZero m s1 xs t) (Text-NonZero m s2 ys u),
)

strncmp-Text :
    (n : ℕ) (m : Memory) (s1 s2 : ℕ) (xs ys : List ℕ)
    → Text m s1 xs
    → Text m s2 ys
    → strncmp n m s1 s2 ≡ compare_text (take n xs) (take n ys)
unfolding strncmp compare_text
strncmp-Text zero m s1 s2 xs ys t u = refl
strncmp-Text (suc n) m s1 s2 [] [] t u = ground arith
strncmp-Text (suc n) m s1 s2 [] (y ∷ ys) t u = ground arith
strncmp-Text (suc n) m s1 s2 (x ∷ xs) [] t u = ground arith
strncmp-Text (suc n) m s1 s2 (x ∷ xs) (y ∷ ys) t u =
    ground (arith, strncmp-Text n m (s1 + 1) (s2 + 1) xs ys t.2 u.2)

-- `strncmp` compares the first `n` bytes of two strings in memory, or all of a shorter string, in
-- the same way: 0 exactly for equal, negative exactly for before.
pub strncmp-Compares :
    (n : ℕ) (m : Memory) (s1 s2 : ℕ) (xs ys : List ℕ)
    → Text m s1 xs
    → Text m s2 ys
    → Compares (take n xs) (take n ys) (strncmp n m s1 s2)
strncmp-Compares n m s1 s2 xs ys t u = rw (strncmp-Text n m s1 s2 xs ys t u) (
    compare_text-Compares (take n xs) (take n ys) (NonZero-take n xs (Text-NonZero m s1 xs t))
      (NonZero-take n ys (Text-NonZero m s2 ys u)))

memcmp-eq :
    (n : ℕ) (m : Memory) (s1 s2 i : ℕ) → memcmp n m s1 s2 ≡ pos 0 → i < n → m (s1 + i) ≡ m (s2 + i)
unfolding memcmp
memcmp-eq zero m s1 s2 i e l = elim l [ ]
memcmp-eq (suc n) m s1 s2 zero e l = ground arith
memcmp-eq (suc n) m s1 s2 (suc i) e l = ground (arith, memcmp-eq n m (s1 + 1) (s2 + 1) i)

memcmp-zero :
    (n : ℕ) (m : Memory) (s1 s2 : ℕ)
    → ((i : ℕ) → i < n → m (s1 + i) ≡ m (s2 + i))
    → memcmp n m s1 s2 ≡ pos 0
unfolding memcmp
memcmp-zero zero m s1 s2 a = refl
memcmp-zero (suc n) m s1 s2 a =
    ground (
      arith,
      a 0 (omega arith),
      memcmp-zero n m (s1 + 1) (s2 + 1) (λ i l. ground (arith, a (suc i))),
    )

-- `memcmp` returns 0 exactly when the `n` bytes of the two ranges are the same.
pub memcmp-zero_iff :
    (n : ℕ) (m : Memory) (s1 s2 : ℕ)
    → (memcmp n m s1 s2 ≡ pos 0) ↔ ((i : ℕ) → i < n → m (s1 + i) ≡ m (s2 + i))
memcmp-zero_iff n m s1 s2 = (λ e i l. memcmp-eq n m s1 s2 i e l, memcmp-zero n m s1 s2)
