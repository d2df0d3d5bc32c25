-- ===== src/Pipe.antt =====
-- Pipes, os/kernel/pipe.c, over the semaphores of Sched/Sem. The bytes of a buffer are a function of
-- the index; a reader that `P` puts to sleep has an outcome of its own, from which `resume` goes on.
pub mod Buffer
pub mod Queue
pub mod Reads
pub mod Writes
pub mod Close
mod Tests
use os_risc_v.Prelude.{
  ℕ, zero, suc, ◌+◌, ◌-◌, ◌%◌, ◌&&◌, ◌||◌, Bool, true, false, not, Option, none, some, List, [],
  ◌∷◌, ◌==◌, ltb, if◌then◌else◌, ℤ, pos, negsuc, neg, is_neg,
}
use os_risc_v.Sched.Sem.{Kernel, sem_p, sem_v, init_semephonre}

-- PIPE_BUFF_SIZE
abbrev pub pipe_buff_size : ℕ
pipe_buff_size = 1024

pub record Pipe : Type 0 where
  pub buf : ℕ → ℕ
  pub r_pos : ℕ
  pub w_pos : ℕ
  pub r_ref : ℕ
  pub w_ref : ℕ

-- The parts of `pipe_alloc` after the allocation: the buffer holds what the memory held.
abbrev pub new_pipe : (ℕ → ℕ) → Pipe
new_pipe b = record { buf = b; r_pos = 0; w_pos = 0; r_ref = 1; w_ref = 1 }

unfoldable pub pipe_alloc : ℕ → (ℕ → ℕ) → Kernel → Pipe × Kernel
unfolding init_semephonre
pipe_alloc sem b k = (new_pipe b, init_semephonre sem (pos 0) k)

-- What a run of `pipe_read` comes to: it returns the bytes it has stored, or sleeps in `P` with
-- `left` bytes to come after the one that it waits for.
pub data Outcome : Type 0 where
  returns : List ℕ → Pipe → Kernel → Outcome
  blocks : (left : ℕ) → List ℕ → Pipe → Kernel → Outcome

abbrev pub prepend : ℕ → Outcome → Outcome
prepend x (returns xs p k) = returns (x ∷ xs) p k
prepend x (blocks n xs p k) = blocks n (x ∷ xs) p k

abbrev pub take_byte : Pipe → Pipe
take_byte p = record p { r_pos = (p.r_pos + 1) % pipe_buff_size }

-- The reader is the process `a` on hart `h`; `t` is the clock where it falls asleep. `killed n` says
-- whether its receive_kill is above 0 behind the `P` with `n` bytes to come after the one it is for.
module _ (h t a sem : ℕ) (killed : ℕ → Bool) where
  unfoldable pub pipe_read : ℕ → Pipe → Kernel → Outcome
  unfolding sem_p
  pipe_read zero p k = returns [] p k
  pipe_read (suc n) p k =
      let u = sem_p h t sem a k in
      let rest = prepend (p.buf p.r_pos) (pipe_read n (take_byte p) u) in
      if p.w_ref == 0 && p.r_pos == p.w_pos
      then returns [] p k
      else if is_neg (u.value sem)
      then blocks n [] p u
      else if killed n
      then returns [] p u
      else rest

  -- The reader goes on behind `P` when it runs again.
  unfoldable pub resume : ℕ → Pipe → Kernel → Outcome
  unfolding pipe_read
  resume n p k =
      if killed n then returns [] p k else prepend (p.buf p.r_pos) (pipe_read n (take_byte p) k)

abbrev pub set_byte : ℕ → ℕ → (ℕ → ℕ) → ℕ → ℕ
set_byte i x b j = if j == i then x else b j

abbrev pub put_byte : ℕ → Pipe → Pipe
put_byte x p = record p { buf = set_byte p.w_pos x p.buf; w_pos = (p.w_pos + 1) % pipe_buff_size }

-- The number of bytes written, the pipe and the kernel.
unfoldable pub pipe_write : ℕ → List ℕ → Pipe → Kernel → ℕ × Pipe × Kernel
unfolding sem_v
pipe_write sem [] p k = (0, p, k)
pipe_write sem (x ∷ xs) p k =
    let q = put_byte x p in
    let u = sem_v sem k in
    let (n, r, v) = pipe_write sem xs q u in if p.r_ref == 0 then (1, q, u) else (n + 1, r, v)
