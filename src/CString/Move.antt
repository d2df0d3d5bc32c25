-- ===== src/CString/Move.antt =====
-- The moves of memory: `memset`, `memcpy` and `memmove`.
use os_risc_v.Prelude.{
  ℕ, zero, suc, ◌+◌, ◌-◌, ◌≤◌, ◌<◌, ◌≡◌, refl, ◌⊎◌, inl, inr, Bool-cases, arith, ltb, leb,
  if◌then◌else◌, ◌&&◌,
}
use os_risc_v.CString.{Ptr, Memory, write, memset, memcpy, copy_down, memmove}

-- `memset` writes the byte to the `n` places from `p` on, and to no other.
pub memset_lem :
    (n : ℕ) (m : Memory) (p c a : ℕ)
    → memset n m p c a ≡ (if leb p a && ltb a (p + n) then c else m a)
unfolding memset
memset_lem zero m p c a = ground arith
memset_lem (suc n) m p c a = ground (arith, memset_lem n (write m p c) (p + 1) c a)

-- The `n` bytes from `from` on stand at `to`, and nothing else has changed.
abbrev pub Moved : ℕ → Ptr → Ptr → Memory → Memory → Type 0
Moved n to from m g =
    ((i : ℕ) → i < n → g (to + i) ≡ m (from + i))
    × ((a : Ptr) → (a < to) ⊎ (to + n ≤ a) → g a ≡ m a)

memcpy-outside : (n : ℕ) (m : Memory) (d s a : ℕ) → (a < d) ⊎ (d + n ≤ a) → memcpy n m d s a ≡ m a
unfolding memcpy
memcpy-outside zero m d s a o = refl
memcpy-outside (suc n) m d s a o =
    ground (arith, memcpy-outside n (write m d (m s)) (d + 1) (s + 1) a)

memcpy-at :
    (n : ℕ) (m : Memory) (d s i : ℕ)
    → (d ≤ s) ⊎ (s + n ≤ d)
    → i < n
    → memcpy n m d s (d + i) ≡ m (s + i)
unfolding memcpy
memcpy-at zero m d s i c l = elim l [ ]
memcpy-at (suc n) m d s zero c l =
    ground (arith, memcpy-outside n (write m d (m s)) (d + 1) (s + 1) d)
memcpy-at (suc n) m d s (suc i) c l =
    ground (arith, memcpy-at n (write m d (m s)) (d + 1) (s + 1) i)

copy_down-outside :
    (n : ℕ) (m : Memory) (d s a : ℕ) → n ≤ d → (a + n < d) ⊎ (d ≤ a) → copy_down n m d s a ≡ m a
unfolding copy_down
copy_down-outside zero m d s a p o = refl
copy_down-outside (suc n) m d s a p o =
    ground (arith, copy_down-outside n (write m (d - 1) (m (s - 1))) (d - 1) (s - 1) a)

-- The downward copy of the `n` bytes below `s` to the `n` places below `d`, where `d` is not below `s`.
copy_down-at :
    (n : ℕ) (m : Memory) (d s i : ℕ)
    → n ≤ s
    → s ≤ d
    → 0 < i
    → i ≤ n
    → copy_down n m d s (d - i) ≡ m (s - i)
unfolding copy_down
copy_down-at zero m d s i p q k l = absurd (omega arith)
copy_down-at (suc n) m d s zero p q k l = absurd (omega arith)
copy_down-at (suc n) m d s (suc zero) p q k l =
    ground (arith, copy_down-outside n (write m (d - 1) (m (s - 1))) (d - 1) (s - 1) (d - 1))
copy_down-at (suc n) m d s (suc (suc i)) p q k l =
    ground (arith, copy_down-at n (write m (d - 1) (m (s - 1))) (d - 1) (s - 1) (suc i))

-- `memcpy` moves the bytes where the target begins at or below the source, or behind its end, and
-- changes nothing else.
pub memcpy-Moved :
    (n : ℕ) (m : Memory) (to from : ℕ)
    → (to ≤ from) ⊎ (from + n ≤ to)
    → Moved n to from m (memcpy n m to from)
memcpy-Moved n m to from c =
    (λ i l. memcpy-at n m to from i c l, λ a o. memcpy-outside n m to from a o)

-- `memmove` moves the bytes and changes nothing else, however the two ranges overlap.
pub memmove-Moved : (n : ℕ) (m : Memory) (to from : ℕ) → Moved n to from m (memmove n m to from)
unfolding memmove
memmove-Moved n m to from = elim (Bool-cases (ltb from to && ltb to (from + n))) [
  | inl e ↦ rw e (
    λ i l. ground (arith, copy_down-at n m (to + n) (from + n) (n - i)),
    λ a o. copy_down-outside n m (to + n) (from + n) a (omega arith) (omega arith),
  )
  | inr e ↦ rw e (memcpy-Moved n m to from (ground arith))
]
