-- ===== src/Pipe/Writes.antt =====
-- Writes to a pipe, os/kernel/pipe.c.
use os_risc_v.Prelude.{
  ℕ, ◌+◌, ◌≤◌, ◌≡◌, ◌≢◌, refl, sym, false, List, [], ◌∷◌, ◌++◌, append-nil, append_assoc, arith,
  ◌==◌, length, length-append, Bool-cases, inl, inr,
}
use os_risc_v.Sched.Sem.{Kernel, sem_v}
use os_risc_v.Pipe.{Pipe, pipe_buff_size, put_byte, pipe_write}
use os_risc_v.Pipe.Queue.{IsQueue, put_byte-IsQueue}

-- A write to a pipe that has a reader and room for all the bytes puts them behind those that are in
-- the pipe and counts them; it leaves the readers' and writers' counts.
pub pipe_write-IsQueue :
    (sem d : ℕ) (ys xs : List ℕ) (p : Pipe) (k : Kernel)
    → IsQueue sem d p k xs
    → p.r_ref ≢ 0
    → length xs + length ys ≤ pipe_buff_size
    → let (n, q, u) = pipe_write sem ys p k in
      (n ≡ length ys) × IsQueue sem d q u (xs ++ ys) × (q.r_ref ≡ p.r_ref) × (q.w_ref ≡ p.w_ref)
unfolding pipe_write
pipe_write-IsQueue sem d [] xs p k i r l = (refl, rw (append-nil xs) i, refl, refl)
pipe_write-IsQueue sem d (y ∷ ys) xs p k i r l =
    let j = put_byte-IsQueue sem d y p k xs i (omega (arith, l)) in
    let (n, q, e, f) =
      pipe_write-IsQueue sem d ys (xs ++ y ∷ []) (put_byte y p) (sem_v sem k) j r
        (omega (arith, l, length-append xs (y ∷ []))) in
    let z : (p.r_ref == 0) ≡ false = ground (arith, r) in
    rw z (omega (arith, n), rw (sym (append_assoc xs (y ∷ []) ys)) q, e, f)

pub pipe_write-one :
    (sem y : ℕ) (p : Pipe) (k : Kernel)
    → pipe_write sem (y ∷ []) p k ≡ (1, put_byte y p, sem_v sem k)
unfolding pipe_write
pipe_write-one sem y p k = elim (Bool-cases (p.r_ref == 0)) [
  | inl e ↦ rw e refl
  | inr e ↦ rw e refl
]
