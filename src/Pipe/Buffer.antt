-- ===== src/Pipe/Buffer.antt =====
-- The ring of bytes of a pipe, os/kernel/pipe.c.
use os_risc_v.Prelude.{ℕ, suc, ◌+◌, ◌%◌, ◌<◌, ◌≡◌, ◌≢◌, List, [], ◌∷◌, ◌++◌, arith, length}
use mathlib.Core.Path.{subst}
use os_risc_v.Pipe.{pipe_buff_size, set_byte}

-- The bytes from the index `r` on, around the ring.
abbrev pub Holds : (ℕ → ℕ) → ℕ → List ℕ → Type 0
Holds b r [] = Unit
Holds b r (x ∷ xs) = (b r ≡ x) × Holds b ((r + 1) % pipe_buff_size) xs

-- A byte put behind fewer than 1024 others leaves them.
pub Holds-put :
    (b : ℕ → ℕ) (r y : ℕ) (xs : List ℕ)
    → r < pipe_buff_size
    → length xs < pipe_buff_size
    → Holds b r xs
    → Holds (set_byte ((r + length xs) % pipe_buff_size) y b) r (xs ++ y ∷ [])
Holds-put b r y [] l m h = (ground (arith, l), tt)
Holds-put b r y (x ∷ xs) l m (e, h) =
    let r' = (r + 1) % pipe_buff_size in
    let i : (r' + length xs) % pipe_buff_size ≡ (r + suc (length xs)) % pipe_buff_size =
      omega (arith, l) in
    let d : r ≢ (r + suc (length xs)) % pipe_buff_size = omega (arith, l, m) in
    let rest = Holds-put b r' y xs (omega arith) (omega (arith, m)) h in
    (ground (arith, d, e), subst (λ j. Holds (set_byte j y b) r' (xs ++ y ∷ [])) i rest)
