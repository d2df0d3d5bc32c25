-- ===== src/Pipe/Queue.antt =====
-- What readers and writers of a pipe see of one another, os/kernel/pipe.c: a queue of bytes.
use os_risc_v.Prelude.{
  ℕ, zero, suc, ◌+◌, ◌%◌, ◌<◌, ◌≡◌, refl, sym, ◌∙◌, ap, List, [], ◌∷◌, ◌++◌, arith, length,
  length-append, pos, negsuc, sub_ℕ,
}
use os_risc_v.Sched.Sem.{Kernel, sem_p, sem_v, pred, next}
use os_risc_v.Sched.Sem.Refines.{sem_p-value, sem_v-value}
use os_risc_v.Pipe.{Pipe, pipe_buff_size, take_byte, put_byte}
use os_risc_v.Pipe.Buffer.{Holds, Holds-put}

-- The bytes `xs` are in the pipe, and `d` readers are behind their `pred` and have not taken a byte.
pub record IsQueue (sem d : ℕ) (p : Pipe) (k : Kernel) (xs : List ℕ) : Type 0 where
  pub start : p.r_pos < pipe_buff_size
  pub stop : p.w_pos ≡ (p.r_pos + length xs) % pipe_buff_size
  pub held : Holds p.buf p.r_pos xs
  pub passes : k.value sem ≡ sub_ℕ (length xs) d

suc-sub_ℕ : (a d : ℕ) → sub_ℕ (suc a) (suc d) ≡ sub_ℕ a d
suc-sub_ℕ a d = ground arith

sub_ℕ-zero : (a : ℕ) → sub_ℕ a 0 ≡ pos a
sub_ℕ-zero a = ground arith

zero-sub_ℕ : (d : ℕ) → sub_ℕ 0 (suc d) ≡ negsuc d
zero-sub_ℕ d = ground arith

next-sub_ℕ : (a d : ℕ) → next (sub_ℕ a d) ≡ sub_ℕ (suc a) d
next-sub_ℕ a zero = ap next (sub_ℕ-zero a) ∙ sym (sub_ℕ-zero (suc a))
next-sub_ℕ zero (suc zero) = refl
next-sub_ℕ zero (suc (suc d)) =
    ap next (zero-sub_ℕ (suc d)) ∙ sym (suc-sub_ℕ 0 (suc d) ∙ zero-sub_ℕ d)
next-sub_ℕ (suc a) (suc d) = ap next (suc-sub_ℕ a d) ∙ next-sub_ℕ a d ∙ sym (suc-sub_ℕ (suc a) d)

pred-sub_ℕ : (a d : ℕ) → pred (sub_ℕ a d) ≡ sub_ℕ a (suc d)
pred-sub_ℕ zero zero = refl
pred-sub_ℕ (suc a) zero = ap pred (sub_ℕ-zero (suc a)) ∙ sym (suc-sub_ℕ a 0 ∙ sub_ℕ-zero a)
pred-sub_ℕ zero (suc d) = ap pred (zero-sub_ℕ d) ∙ sym (zero-sub_ℕ (suc d))
pred-sub_ℕ (suc a) (suc d) = ap pred (suc-sub_ℕ a d) ∙ pred-sub_ℕ a d ∙ sym (suc-sub_ℕ a (suc d))

pub put_byte-IsQueue :
    (sem d y : ℕ) (p : Pipe) (k : Kernel) (xs : List ℕ)
    → IsQueue sem d p k xs
    → length xs < pipe_buff_size
    → IsQueue sem d (put_byte y p) (sem_v sem k) (xs ++ y ∷ [])
put_byte-IsQueue sem d y p k xs i l = record {
  start = i.start;
  stop = omega (arith, i.stop, l, length-append {0} xs (y ∷ []));
  held = rw (i.stop) (Holds-put p.buf p.r_pos y xs i.start l i.held);
  passes =
      rw (sem_v-value sem sem k, i.passes, length-append xs (y ∷ []))
        (ground (arith, next-sub_ℕ (length xs) d));
}

-- A byte taken by a reader that is behind its `P`.
pub take_byte-IsQueue :
    (sem d x : ℕ) (p : Pipe) (k : Kernel) (xs : List ℕ)
    → IsQueue sem (suc d) p k (x ∷ xs)
    → IsQueue sem d (take_byte p) k xs
take_byte-IsQueue sem d x p k xs i = record {
  start = omega arith;
  stop = omega (arith, i.stop, i.start);
  held = i.held.1;
  passes = i.passes ∙ suc-sub_ℕ (length xs) d;
}

pub sem_p-IsQueue :
    (h t a sem d : ℕ) (p : Pipe) (k : Kernel) (xs : List ℕ)
    → IsQueue sem d p k xs
    → IsQueue sem (suc d) p (sem_p h t sem a k) xs
sem_p-IsQueue h t a sem d p k xs i = record {
  start = i.start;
  stop = i.stop;
  held = i.held;
  passes = rw (sem_p-value h t sem a sem k, i.passes) (ground (arith, pred-sub_ℕ (length xs) d));
}
