-- ===== src/CString/Copy.antt =====
-- The copies of strings: `strcpy`, `strcat` and `strncpy`.
use os_risc_v.Prelude.{
  ℕ, zero, suc, ◌+◌, ◌≤◌, ◌<◌, ◌≡◌, refl, ◌⊎◌, inl, some, List, [], ◌∷◌, ◌++◌, arith, ◌==◌,
  if◌then◌else◌, length, get_or,
}
use os_risc_v.CString.{Ptr, Memory, write, strcpy, strcat, strncpy}
use os_risc_v.CString.Text.{Text, strlen-length}

-- `g` differs from `m` at most in the `n` bytes from `p` on.
abbrev pub SameOutside : Ptr → ℕ → Memory → Memory → Type 0
SameOutside p n m g = (a : Ptr) → (a < p) ⊎ (p + n ≤ a) → g a ≡ m a

-- A string survives a change outside of it.
pub Text-frame :
    (m g : Memory) (p : Ptr) (xs : List ℕ)
    → ((a : Ptr) → p ≤ a → a ≤ p + length xs → g a ≡ m a)
    → Text m p xs
    → Text g p xs
Text-frame m g p [] e t = ground (arith, e p)
Text-frame m g p (x ∷ xs) e t = (
  ground (arith, e p),
  t.1,
  Text-frame m g (p + 1) xs (λ a l k. e a (omega arith) (omega arith)) t.2,
)

-- `strcpy` of a string to a place at or below it, or behind its end, returns with the string at the
-- new place, and writes nothing but it and its NUL.
pub strcpy-Text :
    (f : ℕ) (m : Memory) (to from : ℕ) (xs : List ℕ)
    → Text m from xs
    → (to ≤ from) ⊎ (from + length xs < to)
    → length xs < f
    → (g : Memory) × (strcpy f m to from ≡ some g)
      × Text g to xs
      × SameOutside to (length xs + 1) m g
unfolding strcpy
strcpy-Text zero m to from xs t c l = absurd (omega arith)
strcpy-Text (suc f) m to from [] t c l =
    (write m to (m from), ground arith, ground arith, λ a o. ground arith)
strcpy-Text (suc f) m to from (x ∷ xs) t c l =
    let m' = write m to (m from) in
    let (g, e, u, same) =
      strcpy-Text f m' (to + 1) (from + 1) xs
        (Text-frame m m' (from + 1) xs (λ a p q. ground arith) t.2) (ground arith) (omega arith) in
    (g, ground (arith, e), (ground (arith, same to), t.1, u), λ a o. ground (arith, same a))

Text-append :
    (m g : Memory) (p : Ptr) (xs ys : List ℕ)
    → ((a : Ptr) → p ≤ a → a < p + length xs → g a ≡ m a)
    → Text m p xs
    → Text g (p + length xs) ys
    → Text g p (xs ++ ys)
Text-append m g p [] ys e t u = let q : p + 0 ≡ p = omega arith in rw q at u
Text-append m g p (x ∷ xs) ys e t u =
    let q : p + suc (length xs) ≡ p + 1 + length xs = omega arith in
    (
      ground (arith, e p),
      t.1,
      Text-append m g (p + 1) xs ys (λ a l k. e a (omega arith) (omega arith)) t.2 (rw q at u),
    )

strncpy-outside :
    (len : ℕ) (m : Memory) (to from a : ℕ)
    → (a < to) ⊎ (to + len ≤ a)
    → strncpy len m to from a ≡ m a
unfolding strncpy
strncpy-outside zero m to from a o = refl
strncpy-outside (suc n) m to from a o = ground (
  arith,
  strncpy-outside n (write m to (m from)) (to + 1) (if m from == 0 then from else from + 1) a,
)

strncpy-at :
    (len : ℕ) (m : Memory) (to from i : ℕ) (xs : List ℕ)
    → Text m from xs
    → (to + len ≤ from) ⊎ (from + length xs < to)
    → i < len
    → strncpy len m to from (to + i) ≡ get_or xs i 0
unfolding strncpy
strncpy-at zero m to from i xs t c l = elim l [ ]
strncpy-at (suc n) m to from zero [] t c l =
    ground (arith, strncpy-outside n (write m to (m from)) (to + 1) from to)
strncpy-at (suc n) m to from (suc i) [] t c l = ground (
  arith,
  strncpy-at n (write m to (m from)) (to + 1) from i [] (ground arith) (ground arith) (omega arith),
)
strncpy-at (suc n) m to from zero (x ∷ xs) t c l =
    ground (arith, strncpy-outside n (write m to (m from)) (to + 1) (from + 1) to)
strncpy-at (suc n) m to from (suc i) (x ∷ xs) t c l = ground (
  arith,
  strncpy-at n (write m to (m from)) (to + 1) (from + 1) i xs
      (Text-frame m (write m to (m from)) (from + 1) xs (λ a p q. ground arith) t.2) (ground arith)
      (omega arith),
)

-- `strcat` appends a string to another whose place has room, that is, the string copied lies clear
-- of all that is written: then the joined string stands at the target, and nothing else is changed.
pub strcat-Text :
    (f : ℕ) (m : Memory) (to from : ℕ) (xs ys : List ℕ)
    → Text m to xs
    → Text m from ys
    → (to + length xs + length ys < from) ⊎ (from + length ys < to)
    → length xs + length ys < f
    → (g : Memory) × (strcat f m to from ≡ some g)
      × Text g to (xs ++ ys)
      × SameOutside (to + length xs) (length ys + 1) m g
unfolding strcat
strcat-Text f m to from xs ys t u c l =
    let (g, e, w, same) = strcpy-Text f m (to + length xs) from ys u (ground arith) (omega arith) in
    (
      g,
      rw (strlen-length f m to xs t (omega arith)) e,
      Text-append m g to xs ys (λ a p q. same a (inl q)) t w,
      same,
    )

-- `strncpy` writes exactly `len` bytes: those of the string and then NULs, and of a string that is
-- not shorter than `len` its first `len` bytes with no NUL behind them.
pub strncpy-pad :
    (len : ℕ) (m : Memory) (to from : ℕ) (xs : List ℕ)
    → Text m from xs
    → (to + len ≤ from) ⊎ (from + length xs < to)
    → ((i : ℕ) → i < len → strncpy len m to from (to + i) ≡ get_or xs i 0)
      × SameOutside to len m (strncpy len m to from)
strncpy-pad len m to from xs t c =
    (λ i l. strncpy-at len m to from i xs t c l, λ a o. strncpy-outside len m to from a o)
