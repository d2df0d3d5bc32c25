-- ===== src/Paths/Tests.antt =====
-- Paths in "/usr", and one that does not fit.
use os_risc_v.Prelude.{ℕ, ◌≡◌, refl, some, List, [], ◌∷◌, ◌++◌, length}
use os_risc_v.Paths.{var, root, Place, calc_abspath, sys_getcwd}
use os_risc_v.Paths.Resolve.{resolve, entered, calc_abspath-resolve}

-- "/usr"
abbrev usr : Place
usr = record { name = 47 ∷ []; relative_path = 117 ∷ 115 ∷ 114 ∷ [] }

-- "./a"
abbrev dot_a : List ℕ
dot_a = 46 ∷ 47 ∷ 97 ∷ []

-- "/var" and 27 times "/"
abbrev long_var : List ℕ
long_var =
    var
    ++ 47 ∷ 47 ∷ 47 ∷ 47 ∷ 47 ∷ 47 ∷ 47 ∷ 47 ∷ 47 ∷ 47 ∷ 47 ∷ 47 ∷ 47 ∷ 47 ∷ 47 ∷ 47 ∷ 47 ∷ 47 ∷ 47
      ∷ 47 ∷ 47 ∷ 47 ∷ 47 ∷ 47 ∷ 47 ∷ 47 ∷ 47 ∷ []

usr_a : calc_abspath (some usr) dot_a ≡ some (0, 47 ∷ 117 ∷ 115 ∷ 114 ∷ 47 ∷ 97 ∷ [])
unfolding calc_abspath
usr_a = refl

too_long :
    (calc_abspath (some usr) long_var ≡ some (0, root ++ long_var))
    × (length (root ++ long_var) ≡ 36)
unfolding calc_abspath
too_long = (refl, refl)

-- A buffer of 2 bytes is given 5.
cwd_overrun : sys_getcwd 2 [] usr ≡ some (47 ∷ 117 ∷ 115 ∷ 114 ∷ [])
unfolding sys_getcwd
cwd_overrun = refl

calc_abspath-resolve_example : calc_abspath (some usr) dot_a ≡ entered (resolve usr dot_a)
calc_abspath-resolve_example = calc_abspath-resolve usr dot_a
