-- ===== src/CString/Tests.antt =====
-- The functions of string.c on a memory that holds a few short strings.
use os_risc_v.Prelude.{ℕ, ◌-◌, ◌^◌, ◌≡◌, refl, true, some, List, [], ◌∷◌, arith, get_or}
use os_risc_v.CString.{Memory, memmove}
use os_risc_v.CString.Text.{Text}
use os_risc_v.CString.Move.{Moved, memmove-Moved}
use os_risc_v.CString.Number.{strtol, strtol-Decimal}

-- "ab" at 0, "ac" at 3 and "-42" at 6; all else is 0.
abbrev strings : Memory
strings a = get_or (b'a' ∷ b'b' ∷ 0 ∷ b'a' ∷ b'c' ∷ 0 ∷ b'-' ∷ b'4' ∷ b'2' ∷ 0 ∷ []) a 0

abbrev ab : List ℕ
ab = b'a' ∷ b'b' ∷ []

abbrev ac : List ℕ
ac = b'a' ∷ b'c' ∷ []

ab-Text : Text strings 0 ab
ab-Text = (refl, omega arith, (refl, omega arith, refl))

ac-Text : Text strings 3 ac
ac-Text = (refl, omega arith, (refl, omega arith, refl))

number-Text : Text strings 6 (b'-' ∷ b'4' ∷ b'2' ∷ [])
number-Text = (refl, omega arith, (refl, omega arith, (refl, omega arith, refl)))

memmove-Moved_example : Moved 5 1 0 strings (memmove 5 strings 1 0)
memmove-Moved_example = memmove-Moved 5 strings 1 0

strtol-Decimal_example : strtol 5 strings 6 10 ≡ some (2 ^ 32 - 42, 9)
strtol-Decimal_example =
    strtol-Decimal true 5 strings 6 (4 ∷ 2 ∷ []) (omega arith, (omega arith, tt)) number-Text
      (omega arith)
