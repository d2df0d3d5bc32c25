-- ===== src/Pipe/Reads.antt =====
-- Reads from a pipe, os/kernel/pipe.c.
use os_risc_v.Prelude.{
  ℕ, zero, suc, ◌+◌, ◌%◌, ◌≤◌, ◌<◌, ◌≡◌, ◌≢◌, refl, ap, ◌⊎◌, inl, inr, Bool, true, false, ◌&&◌,
  List, [], ◌∷◌, arith, ◌==◌, if◌then◌else◌, length, take, drop, pos, is_neg, Bool-cases,
}
use mathlib.Core.Path.{subst}
use os_risc_v.Sched.Sem.{Kernel, sem_p, sem_v}
use os_risc_v.Sched.Sem.Refines.{sem_p-value, sem_v-value}
use os_risc_v.Pipe.{
  Pipe, pipe_buff_size, Outcome, returns, blocks, prepend, take_byte, pipe_read, resume, pipe_write,
  put_byte,
}
use os_risc_v.Pipe.Writes.{pipe_write-IsQueue, pipe_write-one}
use os_risc_v.Pipe.Queue.{IsQueue, take_byte-IsQueue, sem_p-IsQueue}

-- What a read of `n` bytes from the queue `xs` is to come to, with a writer or without.
abbrev pub Meets : ℕ → ℕ → List ℕ → ℕ → Outcome → Type 0
Meets sem n xs writers (returns ys q u) =
    (ys ≡ take n xs)
    × ((n ≤ length xs) ⊎ (writers ≡ 0))
    × IsQueue sem 0 q u (drop n xs)
    × (q.w_ref ≡ writers)
Meets sem n xs writers (blocks m ys q u) =
    (ys ≡ xs) × (length xs + suc m ≡ n) × (writers ≢ 0) × IsQueue sem 1 q u [] × (q.w_ref ≡ writers)

prepend-Meets :
    (sem n x w : ℕ) (xs : List ℕ) (o : Outcome)
    → Meets sem n xs w o
    → Meets sem (suc n) (x ∷ xs) w (prepend x o)
prepend-Meets sem n x w xs (returns ys q u) (e, l, i, v) =
    (ap (λ zs. x ∷ zs) e, ground (arith, l), i, v)
prepend-Meets sem n x w xs (blocks m ys q u) (e, l, d, i, v) =
    (ap (λ zs. x ∷ zs) e, omega (arith, l), d, i, v)

-- The test for the end of the file, where the pipe is not full.
at_end-nil : (r w : ℕ) → r < pipe_buff_size → w ≡ (r + 0) % pipe_buff_size → (r == w) ≡ true
at_end-nil r w l e = let i : r ≡ w = omega (arith, l, e) in ground (arith, i)

at_end-some :
    (r w n : ℕ)
    → r < pipe_buff_size
    → suc n < pipe_buff_size
    → w ≡ (r + suc n) % pipe_buff_size
    → (r == w) ≡ false
at_end-some r w n l m e = let d : r ≢ w = omega (arith, l, m, e) in ground (arith, d)

and-false : (b : Bool) → (b && false) ≡ false
and-false true = refl
and-false false = refl

module _ (h t a sem : ℕ) (killed : ℕ → Bool) (alive : (m : ℕ) → killed m ≡ false) where
  -- A read of a pipe that is not full, by a reader that is not killed, where no other reader is asleep
  -- or has passed its `P` without taking its byte yet: it stores the first bytes of the queue in
  -- their order, as many as are asked for; where there are fewer, it ends with all of them when no
  -- writer is left, and else sleeps behind all of them.
  pub pipe_read-Meets :
      (n : ℕ) (xs : List ℕ) (p : Pipe) (k : Kernel)
      → IsQueue sem 0 p k xs
      → length xs < pipe_buff_size
      → Meets sem n xs p.w_ref (pipe_read h t a sem killed n p k)
  unfolding pipe_read
  pipe_read-Meets zero xs p k i l = (refl, inl (omega arith), i, refl)
  pipe_read-Meets (suc n) [] p k i l =
      let j = sem_p-IsQueue h t a sem 0 p k [] i in
      let b = at_end-nil p.r_pos p.w_pos i.start i.stop in
      elim (Bool-cases (p.w_ref == 0)) [
        | inl e ↦ rw (e, b) (refl, inr (ground (arith, e)), i, refl)
        | inr e ↦ rw (e, j.passes) (refl, omega arith, ground (arith, e), j, refl)
      ]
  pipe_read-Meets (suc n) (x ∷ xs) p k i l =
      let j = sem_p-IsQueue h t a sem 0 p k (x ∷ xs) i in
      let u = sem_p h t sem a k in
      let m = take_byte-IsQueue sem 0 x p u xs j in
      let b = at_end-some p.r_pos p.w_pos (length xs) i.start l i.stop in
      let ih = pipe_read-Meets n xs (take_byte p) u m (omega (arith, l)) in
      let v : is_neg (u.value sem) ≡ false = rw (j.passes) (ground arith) in
      rw (b, and-false, v, alive n, i.held.0) (prepend-Meets sem n x p.w_ref xs _ ih)

  resume-Meets :
      (n x : ℕ) (xs : List ℕ) (p : Pipe) (k : Kernel)
      → IsQueue sem 1 p k (x ∷ xs)
      → length xs < pipe_buff_size
      → Meets sem (suc n) (x ∷ xs) p.w_ref (resume h t a sem killed n p k)
  unfolding resume
  resume-Meets n x xs p k i l =
      rw (alive n, i.held.0)
        (prepend-Meets sem n x p.w_ref xs _
          (pipe_read-Meets n xs (take_byte p) k (take_byte-IsQueue sem 0 x p k xs i) l))

  -- A reader that fell asleep on the empty pipe, woken after a write of at least one byte and fewer
  -- than 1024, goes on with the bytes that were written.
  pub resume-pipe_write :
      (n : ℕ) (ys : List ℕ) (p : Pipe) (k : Kernel)
      → IsQueue sem 1 p k []
      → p.r_ref ≢ 0
      → 0 < length ys
      → length ys < pipe_buff_size
      → let (c, q, u) = pipe_write sem ys p k in
        Meets sem (suc n) ys p.w_ref (resume h t a sem killed n q u)
  resume-pipe_write n [] p k i r l m = absurd (omega (arith, l))
  resume-pipe_write n (y ∷ ys) p k i r l m =
      let w = pipe_write sem (y ∷ ys) p k in
      let (c, j, e, f) = pipe_write-IsQueue sem 1 (y ∷ ys) [] p k i r (omega (arith, m)) in
      subst (λ v. Meets sem (suc n) (y ∷ ys) v (resume h t a sem killed n w.1 w.2)) f
        (resume-Meets n y ys w.1 w.2 j (omega (arith, m)))

  -- With no writer left a full pipe reads as empty.
  pub pipe_read-full :
      (n : ℕ) (xs : List ℕ) (p : Pipe) (k : Kernel)
      → IsQueue sem 0 p k xs
      → length xs ≡ pipe_buff_size
      → p.w_ref ≡ 0
      → pipe_read h t a sem killed n p k ≡ returns [] p k
  unfolding pipe_read
  pipe_read-full zero xs p k i l w = refl
  pipe_read-full (suc n) xs p k i l w =
      let b = at_end-nil p.r_pos p.w_pos i.start (omega (arith, i.stop, l)) in rw (w, b) refl

  -- Where the writer is at the place of the reader, the byte it writes is the next one to be read.
  read-put_byte :
      (y n : ℕ) (p : Pipe) (u : Kernel)
      → p.w_pos ≡ p.r_pos
      → p.w_ref ≢ 0
      → u.value sem ≡ pos (suc n)
      → pipe_read h t a sem killed 1 (put_byte y p) u
        ≡ returns (y ∷ []) (take_byte (put_byte y p)) (sem_p h t sem a u)
  unfolding pipe_read
  read-put_byte y n p u e w v =
      let c : (p.w_ref == 0) ≡ false = ground (arith, w) in
      let m : is_neg ((sem_p h t sem a u).value sem) ≡ false =
        rw (sem_p-value h t sem a sem u, v) (ground arith) in
      let b : (if p.r_pos == p.w_pos then y else p.buf p.r_pos) ≡ y = ground (arith, e) in
      rw (c, m, alive 0, b) refl

  -- A byte written to a full pipe, which has a writer, is read in the place of the oldest one.
  pub pipe_read-overrun :
      (x y : ℕ) (xs : List ℕ) (p : Pipe) (k : Kernel)
      → IsQueue sem 0 p k (x ∷ xs)
      → length (x ∷ xs) ≡ pipe_buff_size
      → p.w_ref ≢ 0
      → let (c, q, u) = pipe_write sem (y ∷ []) p k in
        (c ≡ 1)
        × (pipe_read h t a sem killed 1 q u ≡ returns (y ∷ []) (take_byte q) (sem_p h t sem a u))
  pipe_read-overrun x y xs p k i l w =
      let u = sem_v sem k in
      let v : u.value sem ≡ pos 1025 = rw (sem_v-value sem sem k, i.passes, l) (ground arith) in
      rw (pipe_write-one sem y p k)
        (refl, read-put_byte y 1024 p u (omega (arith, i.stop, i.start, l)) w v)
