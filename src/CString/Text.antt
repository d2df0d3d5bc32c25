-- ===== src/CString/Text.antt =====
-- C strings in memory, and what the functions that search a string find.
use Prim.Native.Nat.{min}
use os_risc_v.Prelude.{
  ℕ, zero, suc, ◌+◌, ◌<◌, ◌≡◌, refl, Option, none, some, List, [], ◌∷◌, arith, ◌==◌, if◌then◌else◌,
  length,
}
use mathlib.Core.Option
use os_risc_v.CString.{Ptr, Memory, strlen_loop, strlen, strnlen_loop, strnlen, strchr, strfind}

-- At `p` stand the bytes `xs`, none of them NUL, and then a NUL.
abbrev pub Text : Memory → Ptr → List ℕ → Type 0
Text m p [] = m p ≡ 0
Text m p (x ∷ xs) = (m p ≡ x) × (0 < x) × Text m (p + 1) xs

-- Where a byte stands first in a string.
abbrev pub index_of : ℕ → List ℕ → Option ℕ
index_of c [] = none
index_of c (x ∷ xs) = if x == c then some 0 else Option.map suc (index_of c xs)

strlen_loop-length :
    (f : ℕ) (m : Memory) (s cnt : ℕ) (xs : List ℕ)
    → Text m s xs
    → length xs < f
    → strlen_loop f m s cnt ≡ some (cnt + length xs)
unfolding strlen_loop
strlen_loop-length zero m s cnt xs t l = absurd (omega arith)
strlen_loop-length (suc f) m s cnt [] t l = ground arith
strlen_loop-length (suc f) m s cnt (x ∷ xs) t l =
    ground (arith, strlen_loop-length f m (s + 1) (cnt + 1) xs t.2 (omega arith))

-- `strlen` of a string in memory returns the number of its bytes.
pub strlen-length :
    (f : ℕ) (m : Memory) (s : ℕ) (xs : List ℕ)
    → Text m s xs
    → length xs < f
    → strlen f m s ≡ some (length xs)
unfolding strlen
strlen-length f m s xs t l = ground (arith, strlen_loop-length f m s 0 xs t l)

strnlen_loop-min :
    (left : ℕ) (m : Memory) (s cnt : ℕ) (xs : List ℕ)
    → Text m s xs
    → strnlen_loop left m s cnt ≡ cnt + min left (length xs)
unfolding strnlen_loop
strnlen_loop-min zero m s cnt xs t = omega arith
strnlen_loop-min (suc left) m s cnt [] t = ground arith
strnlen_loop-min (suc left) m s cnt (x ∷ xs) t =
    ground (arith, strnlen_loop-min left m (s + 1) (cnt + 1) xs t.2)

-- `strnlen` returns the number of bytes of the string, or the limit if that is less.
pub strnlen-min :
    (m : Memory) (s len : ℕ) (xs : List ℕ) → Text m s xs → strnlen m s len ≡ min len (length xs)
unfolding strnlen
strnlen-min m s len xs t = ground (arith, strnlen_loop-min len m s 0 xs t)

shift :
    (s : ℕ) (o : Option ℕ)
    → Option.map (λ i. s + 1 + i) o ≡ Option.map (λ i. s + i) (Option.map suc o)
shift s none = refl
shift s (some i) = ground arith

-- `strchr` returns the address of the first byte `c` of the string, and null if it has none.
pub strchr-index_of :
    (f : ℕ) (m : Memory) (s c : ℕ) (xs : List ℕ)
    → Text m s xs
    → length xs < f
    → strchr f m s c ≡ some (Option.map (λ i. s + i) (index_of c xs))
unfolding strchr
strchr-index_of zero m s c xs t l = absurd (omega arith)
strchr-index_of (suc f) m s c [] t l = ground arith
strchr-index_of (suc f) m s c (x ∷ xs) t l =
    ground (arith, strchr-index_of f m (s + 1) c xs t.2 (omega arith), shift s (index_of c xs))

abbrev pub or_end : ℕ → Option ℕ → ℕ
or_end n none = n
or_end n (some i) = i

or_end-suc : (n : ℕ) (o : Option ℕ) → or_end (suc n) (Option.map suc o) ≡ suc (or_end n o)
or_end-suc n none = refl
or_end-suc n (some i) = refl

-- `strfind` returns the address of the first byte `c` of the string, and that of its NUL if it has
-- none.
pub strfind-index_of :
    (f : ℕ) (m : Memory) (s c : ℕ) (xs : List ℕ)
    → Text m s xs
    → length xs < f
    → strfind f m s c ≡ some (s + or_end (length xs) (index_of c xs))
unfolding strfind
strfind-index_of zero m s c xs t l = absurd (omega arith)
strfind-index_of (suc f) m s c [] t l = ground arith
strfind-index_of (suc f) m s c (x ∷ xs) t l = ground (
  arith,
  strfind-index_of f m (s + 1) c xs t.2 (omega arith),
  or_end-suc (length xs) (index_of c xs),
)
