-- ===== src/Paths/Resolve.antt =====
-- The path that a relative one stands for.
use os_risc_v.Prelude.{
  ℕ, ap, ◌+◌, ◌<◌, ◌≡◌, sym, ◌∙◌, ◌⊎◌, Bool, true, false, Option, none, some, List, [], ◌∷◌, ◌++◌,
  length, length-append, take, drop, refl, ◌&&◌, ltb, if◌then◌else◌, ◌==◌, arith, Bool-cases, inl,
  inr,
}
use os_risc_v.Paths.{
  vfs_path_max, slash, dot, starts_with, var, root, add_root, Place, relative_abspath, calc_abspath,
}

-- The bytes of two strings are the same, and a string begins with a word.
abbrev pub is_same : List ℕ → List ℕ → Bool
is_same [] [] = true
is_same [] (d ∷ ds) = false
is_same (c ∷ cs) [] = false
is_same (c ∷ cs) (d ∷ ds) = c == d && is_same cs ds

abbrev pub begins : List ℕ → List ℕ → Bool
begins word path = is_same (take (length word) path) word

-- What a path stands for, whatever its length, and whether it is "." itself.
abbrev pub resolve : Place → List ℕ → Bool × List ℕ
resolve dir path =
    let here = dir.name ++ dir.relative_path in
    if begins (b'/' ∷ []) path
    then (false, path)
    else if begins (b'.' ∷ b'/' ∷ []) path
    then (false, here ++ drop 1 path)
    else if is_same path (b'.' ∷ [])
    then (true, here)
    else (false, here ++ b'/' ∷ path)

-- The same, below "/root" where it begins with "/var".
abbrev pub below_root : List ℕ → List ℕ
below_root path =
    if begins (b'/' ∷ b'v' ∷ b'a' ∷ b'r' ∷ []) path
    then b'/' ∷ b'r' ∷ b'o' ∷ b'o' ∷ b't' ∷ path
    else path

-- The answer of 32 bytes at most, with the NUL that ends them, and 1 for ".".
abbrev pub entered : Bool × List ℕ → Option (ℕ × List ℕ)
entered (is_dot, path) =
    if ltb (length path) 32 then some (if is_dot then (1, path) else (0, below_root path)) else none

is_same_comm : (c d : ℕ) → (c == d) ≡ (d == c)
is_same_comm c d = ground arith

starts_with-begins : (word path : List ℕ) → starts_with word path ≡ begins word path
unfolding starts_with
starts_with-begins [] path = refl
starts_with-begins (c ∷ cs) [] = refl
starts_with-begins (c ∷ cs) (d ∷ ds) = rw (is_same_comm c d, starts_with-begins cs ds) refl

add_root-below_root : (path : List ℕ) → add_root path ≡ below_root path
unfolding add_root
add_root-below_root path = rw (starts_with-begins var path) refl

length-here :
    (dir : Place) (path : List ℕ)
    → length ((dir.name ++ dir.relative_path) ++ path)
      ≡ length dir.name + length dir.relative_path + length path
length-here dir path = omega (
  arith,
  length-append (dir.name ++ dir.relative_path) path,
  length-append dir.name dir.relative_path,
)

-- `resolve` and `entered` in the words of the code.
abbrev tested : Place → List ℕ → Bool × List ℕ
tested dir path =
    let here = dir.name ++ dir.relative_path in
    if starts_with (slash ∷ []) path
    then (false, path)
    else if starts_with (dot ∷ slash ∷ []) path
    then (false, here ++ (elim path [ c ∷ cs ↦ cs | [] ↦ [] ]))
    else elim path [
      | [] ↦ (false, here ++ slash ∷ [])
      | c ∷ [] ↦ if c == dot then (true, here) else (false, here ++ slash ∷ c ∷ [])
      | c ∷ d ∷ cs ↦ (false, here ++ slash ∷ c ∷ d ∷ cs)
    ]

abbrev stored : Bool × List ℕ → Option (ℕ × List ℕ)
stored (is_dot, path) =
    if ltb (length path) vfs_path_max
    then some (if is_dot then (1, path) else (0, add_root path))
    else none

calc_abspath-tested :
    (dir : Place) (path : List ℕ) → calc_abspath (some dir) path ≡ stored (tested dir path)
unfolding calc_abspath relative_abspath starts_with
calc_abspath-tested dir [] = ground (arith, length-here dir (slash ∷ []))
calc_abspath-tested dir (c ∷ []) =
    ground (arith, length-append dir.name dir.relative_path, length-here dir (slash ∷ c ∷ []))
calc_abspath-tested dir (c ∷ d ∷ cs) =
    ground (arith, length-here dir (d ∷ cs), length-here dir (slash ∷ c ∷ d ∷ cs))

tested-resolve : (dir : Place) (path : List ℕ) → tested dir path ≡ resolve dir path
unfolding starts_with
tested-resolve dir [] = refl
tested-resolve dir (c ∷ []) = ground arith
tested-resolve dir (c ∷ d ∷ cs) = ground arith

stored-entered : (r : Bool × List ℕ) → stored r ≡ entered r
stored-entered (b, path) = rw (add_root-below_root path) refl

-- `calc_abspath` in a directory answers with what the path stands for, and that below "/root" where
-- it begins with "/var" and is not the directory itself, with 0, or 1 for "."; it does so exactly
-- where the path has fewer than 32 bytes before the "/root", and else answers -1.
pub calc_abspath-resolve :
    (dir : Place) (path : List ℕ) → calc_abspath (some dir) path ≡ entered (resolve dir path)
calc_abspath-resolve dir path =
    calc_abspath-tested dir path
    ∙ ap stored (tested-resolve dir path)
    ∙ stored-entered (resolve dir path)

stored-bounds :
    (r : Bool × List ℕ) (n : ℕ) (abspath : List ℕ)
    → stored r ≡ some (n, abspath)
    → (length abspath < vfs_path_max)
      ⊎ (starts_with (root ++ var) abspath ≡ true) × (length abspath < vfs_path_max + 5)
unfolding add_root starts_with
stored-bounds (true, path) n abspath e = inl (ground (arith, e))
stored-bounds (false, path) n abspath e = elim (Bool-cases (starts_with var path)) [
  | inl y ↦ inr (ground (arith, e, y))
  | inr o ↦ inl (ground (arith, e, o))
]

-- The string that `calc_abspath` leaves in its buffer of 32 bytes, where it succeeds in a directory,
-- fits with its NUL, or begins with "/root/var" and is at most 5 bytes too long.
pub calc_abspath-bounds :
    (dir : Place) (path : List ℕ) (n : ℕ) (abspath : List ℕ)
    → calc_abspath (some dir) path ≡ some (n, abspath)
    → (length abspath < vfs_path_max)
      ⊎ (starts_with (root ++ var) abspath ≡ true) × (length abspath < vfs_path_max + 5)
calc_abspath-bounds dir path n abspath e =
    stored-bounds (tested dir path) n abspath (sym (calc_abspath-tested dir path) ∙ e)
