-- ===== src/CString.antt =====
-- The strings and the memory functions of os/lib/string.c, over memory as a function from addresses
-- to bytes. A loop that stops at a NUL takes fuel, and `none` means that the fuel ran out; a loop
-- over a length recurs on it. Lengths are `int` in the source; the model is read for those that are
-- not negative.
pub mod Text
pub mod Compare
mod Copy
mod Move
pub mod Number
mod Tests
use os_risc_v.Prelude.{
  ℕ, zero, suc, ◌+◌, ◌-◌, ◌&&◌, not, Option, none, some, ℤ, pos, sub_ℕ, ◌==◌, ltb, if◌then◌else◌,
}

abbrev pub Ptr : Type 0
Ptr = ℕ

abbrev pub Memory : Type 0
Memory = Ptr → ℕ

abbrev pub write : Memory → Ptr → ℕ → Memory
write m p c a = if a == p then c else m a

-- `while (*s++ != '\0') cnt++`
unfoldable pub strlen_loop : ℕ → Memory → Ptr → ℕ → Option ℕ
strlen_loop zero m s cnt = none
strlen_loop (suc f) m s cnt =
    let rest = strlen_loop f m (s + 1) (cnt + 1) in if m s == 0 then some cnt else rest

unfoldable pub strlen : ℕ → Memory → Ptr → Option ℕ
unfolding strlen_loop
strlen f m s = strlen_loop f m s 0

-- The rounds left are `len - cnt`.
unfoldable pub strnlen_loop : ℕ → Memory → Ptr → ℕ → ℕ
strnlen_loop zero m s cnt = cnt
strnlen_loop (suc left) m s cnt =
    let rest = strnlen_loop left m (s + 1) (cnt + 1) in if m s == 0 then cnt else rest

unfoldable pub strnlen : Memory → Ptr → ℕ → ℕ
unfolding strnlen_loop
strnlen m s len = strnlen_loop len m s 0

-- `while ((*p++ = *from++) != '\0') {}`
unfoldable pub strcpy : ℕ → Memory → Ptr → Ptr → Option Memory
strcpy zero m to from = none
strcpy (suc f) m to from =
    let c = m from in
    let m' = write m to c in
    let rest = strcpy f m' (to + 1) (from + 1) in if c == 0 then some m' else rest

unfoldable pub strncpy : ℕ → Memory → Ptr → Ptr → Memory
strncpy zero m to from = m
strncpy (suc len) m to from =
    let c = m from in strncpy len (write m to c) (to + 1) (if c == 0 then from else from + 1)

abbrev pub strcat_at : ℕ → Memory → Ptr → Ptr → Option ℕ → Option Memory
strcat_at f m to from none = none
strcat_at f m to from (some n) = strcpy f m (to + n) from

unfoldable pub strcat : ℕ → Memory → Ptr → Ptr → Option Memory
strcat f m to from = strcat_at f m to from (strlen f m to)

-- The difference of two bytes as `unsigned char`.
abbrev pub byte_diff : ℕ → ℕ → ℤ
byte_diff a b = sub_ℕ a b

unfoldable pub strcmp : ℕ → Memory → Ptr → Ptr → Option ℤ
strcmp zero m s1 s2 = none
strcmp (suc f) m s1 s2 =
    let rest = strcmp f m (s1 + 1) (s2 + 1) in
    if not (m s1 == 0) && (m s1 == m s2) then rest else some (byte_diff (m s1) (m s2))

unfoldable pub strncmp : ℕ → Memory → Ptr → Ptr → ℤ
strncmp zero m s1 s2 = pos 0
strncmp (suc n) m s1 s2 =
    let rest = strncmp n m (s1 + 1) (s2 + 1) in
    if not (m s1 == 0) && (m s1 == m s2) then rest else byte_diff (m s1) (m s2)

-- The outer option is the fuel, the inner one the null pointer.
unfoldable pub strchr : ℕ → Memory → Ptr → ℕ → Option (Option Ptr)
strchr zero m s c = none
strchr (suc f) m s c =
    let rest = strchr f m (s + 1) c in
    if m s == 0 then some none else if m s == c then some (some s) else rest

unfoldable pub strfind : ℕ → Memory → Ptr → ℕ → Option Ptr
strfind zero m s c = none
strfind (suc f) m s c =
    let rest = strfind f m (s + 1) c in
    if m s == 0 then some s else if m s == c then some s else rest

unfoldable pub memset : ℕ → Memory → Ptr → ℕ → Memory
memset zero m p c = m
memset (suc n) m p c = memset n (write m p c) (p + 1) c

-- The loop that copies upwards, and the one that copies downwards from the ends.
unfoldable pub memcpy : ℕ → Memory → Ptr → Ptr → Memory
memcpy zero m d s = m
memcpy (suc n) m d s = memcpy n (write m d (m s)) (d + 1) (s + 1)

unfoldable pub copy_down : ℕ → Memory → Ptr → Ptr → Memory
copy_down zero m d s = m
copy_down (suc n) m d s = copy_down n (write m (d - 1) (m (s - 1))) (d - 1) (s - 1)

unfoldable pub memmove : ℕ → Memory → Ptr → Ptr → Memory
unfolding memcpy copy_down
memmove n m to from =
    if ltb from to && ltb to (from + n)
    then copy_down n m (to + n) (from + n)
    else memcpy n m to from

unfoldable pub memcmp : ℕ → Memory → Ptr → Ptr → ℤ
memcmp zero m s1 s2 = pos 0
memcmp (suc n) m s1 s2 =
    let rest = memcmp n m (s1 + 1) (s2 + 1) in
    if not (m s1 == m s2) then byte_diff (m s1) (m s2) else rest
