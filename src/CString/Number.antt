-- ===== src/CString/Number.antt =====
-- `strtol` of os/lib/string.c. `val` is a `long`, so it is kept modulo 2^64; the result is an `int`
-- and stands here as its 32-bit pattern, beside the `*endptr` that the source writes.
use os_risc_v.Prelude.{
  ℕ, zero, suc, ◌+◌, ◌-◌, ◌*◌, ◌%◌, ◌^◌, ◌≤◌, ◌<◌, ◌≡◌, refl, ◌⊎◌, inl, inr, Bool, true, false,
  ◌&&◌, ◌||◌, Option, none, some, List, [], ◌∷◌, map, arith, ◌==◌, leb, if◌then◌else◌, length,
}
use os_risc_v.CString.{Ptr, Memory}
use os_risc_v.CString.Text.{Text}

-- `while (*s == ' ' || *s == '\t') s++`
unfoldable pub skip_blanks : ℕ → Memory → Ptr → Option Ptr
skip_blanks zero m s = none
skip_blanks (suc f) m s =
    let rest = skip_blanks f m (s + 1) in if m s == b' ' || m s == 9 then rest else some s

-- The value of a digit or letter; `none` for any other byte.
unfoldable pub digit : ℕ → Option ℕ
digit c =
    if leb b'0' c && leb c b'9'
    then some (c - b'0')
    else if leb b'a' c && leb c b'z'
    then some (c - b'a' + 10)
    else if leb b'A' c && leb c b'Z'
    then some (c - b'A' + 10)
    else none

-- The digit at `s`, if it is one in the base.
unfoldable pub digit_in : ℕ → ℕ → Option ℕ
unfolding digit
digit_in base c = elim (digit c) [ none ↦ none | some d ↦ (if leb base d then none else some d) ]

-- The loop over the digits: the value and the place where it stops.
unfoldable pub digits : ℕ → Memory → Ptr → ℕ → ℕ → Option (ℕ × Ptr)
digits zero m s base val = none
digits (suc f) m s base val = elim (digit_in base (m s)) [
  | none ↦ some (val, s)
  | some d ↦ digits f m (s + 1) base ((val * base + d) % 2 ^ 64)
]

-- The sign: whether it is negative, and what follows it.
unfoldable pub sign : Memory → Ptr → Bool × Ptr
sign m s = if m s == b'+' then (false, s + 1) else if m s == b'-' then (true, s + 1) else (false, s)

-- The base that is used, and where the digits begin.
unfoldable pub prefix : Memory → Ptr → ℕ → ℕ × Ptr
prefix m s base =
    if (base == 0 || base == 16) && (m s == b'0' && m (s + 1) == b'x')
    then (16, s + 2)
    else if base == 0 && m s == b'0'
    then (8, s + 1)
    else if base == 0
    then (10, s)
    else (base, s)

-- `return (neg ? -val : val)`
unfoldable pub to_int : Bool → ℕ → ℕ
to_int neg val = if neg then (2 ^ 64 - val) % 2 ^ 64 % 2 ^ 32 else val % 2 ^ 32

unfoldable pub strtol : ℕ → Memory → Ptr → ℕ → Option (ℕ × Ptr)
unfolding skip_blanks sign prefix
strtol f m s base = elim (skip_blanks f m s) [
  | none ↦ none
  | some s1 ↦
      let (negative, s2) = sign m s1 in
      let (base', s3) = prefix m s2 base in
      elim (digits f m s3 base' 0) [ none ↦ none | some (val, s4) ↦ some (to_int negative val, s4) ]
]

-- Strings of decimal digits, each given by its value, and the number that they denote.
abbrev pub Decimal : List ℕ → Type 0
Decimal [] = Unit
Decimal (d ∷ ds) = (d < 10) × Decimal ds

abbrev pub value : ℕ → List ℕ → ℕ
value acc [] = acc
value acc (d ∷ ds) = value (acc * 10 + d) ds

abbrev pub print : List ℕ → List ℕ
print = map (λ d. b'0' + d)

digit_in-decimal : (d : ℕ) → d < 10 → digit_in 10 (b'0' + d) ≡ some d
unfolding digit_in
digit_in-decimal d l = ground arith

digit_in-nul : digit_in 10 0 ≡ none
unfolding digit_in
digit_in-nul = refl

value-mod :
    (a b : ℕ) (ds : List ℕ) → a % 2 ^ 64 ≡ b % 2 ^ 64 → value a ds % 2 ^ 64 ≡ value b ds % 2 ^ 64
value-mod a b [] e = e
value-mod a b (d ∷ ds) e = value-mod (a * 10 + d) (b * 10 + d) ds (omega arith)

digits-value :
    (f : ℕ) (m : Memory) (s acc : ℕ) (ds : List ℕ)
    → Decimal ds
    → Text m s (print ds)
    → length ds < f
    → acc < 2 ^ 64
    → digits f m s 10 acc ≡ some (value acc ds % 2 ^ 64, s + length ds)
unfolding digits
digits-value zero m s acc ds p t l b = absurd (omega arith)
digits-value (suc f) m s acc [] p t l b = ground (arith, digit_in-nul)
digits-value (suc f) m s acc (d ∷ ds) p t l b =
    let r =
      digits-value f m (s + 1) ((acc * 10 + d) % 2 ^ 64) ds p.1 t.2 (omega arith) (omega arith) in
    ground (
      arith,
      r,
      digit_in-decimal d p.0,
      value-mod ((acc * 10 + d) % 2 ^ 64) (acc * 10 + d) ds (omega arith),
    )

-- A minus sign, or none.
abbrev pub signed : Bool → List ℕ → List ℕ
signed true xs = b'-' ∷ xs
signed false xs = xs

-- The `int` that stands for a number modulo 2^32, or for its negative.
abbrev pub as_int : Bool → ℕ → ℕ
as_int true n = (2 ^ 32 - n % 2 ^ 32) % 2 ^ 32
as_int false n = n % 2 ^ 32

to_int-as_int : (neg : Bool) (n : ℕ) → to_int neg (n % 2 ^ 64) ≡ as_int neg n
unfolding to_int
to_int-as_int true n = omega arith
to_int-as_int false n = omega arith

length-print : (ds : List ℕ) → length (print ds) ≡ length ds
length-print [] = refl
length-print (d ∷ ds) = ground (arith, length-print ds)

first-print :
    (m : Memory) (s : ℕ) (ds : List ℕ)
    → Decimal ds
    → Text m s (print ds)
    → (m s ≡ 0) ⊎ ((b'0' ≤ m s) × (m s ≤ b'9'))
first-print m s [] p t = inl t
first-print m s (d ∷ ds) p t = inr (omega arith, omega arith)

prefix-ten : (m : Memory) (s : ℕ) → prefix m s 10 ≡ (10, s)
unfolding prefix
prefix-ten m s = refl

-- `strtol` in base 10, on a string of decimal digits with or without a minus sign, returns the
-- number that they denote, as an `int`, and sets `*endptr` to the end of the string.
pub strtol-Decimal :
    (neg : Bool) (f : ℕ) (m : Memory) (s : ℕ) (ds : List ℕ)
    → Decimal ds
    → Text m s (signed neg (print ds))
    → length ds + 1 < f
    → strtol f m s 10 ≡ some (as_int neg (value 0 ds), s + length (signed neg (print ds)))
unfolding strtol
strtol-Decimal neg zero m s ds p t l = absurd (omega arith)
strtol-Decimal true (suc f) m s ds p t l = ground (
  arith,
  prefix-ten m (s + 1),
  digits-value (suc f) m (s + 1) 0 ds p t.2 (omega arith) (omega arith),
  to_int-as_int true (value 0 ds),
  length-print ds,
)
strtol-Decimal false (suc f) m s ds p t l = ground (
  arith,
  prefix-ten m s,
  first-print m s ds p t,
  digits-value (suc f) m s 0 ds p t (omega arith) (omega arith),
  to_int-as_int false (value 0 ds),
  length-print ds,
)
