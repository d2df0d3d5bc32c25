-- ===== src/Sched/Sem.antt =====
-- Semaphores, os/kernel/sem.c. Their values are those of a map from addresses; the lock of a
-- semaphore is let go before `sleep` and `wakeup`, which the operations below run with no other hart
-- in between.
pub mod Values
pub mod Effects
pub mod Refines
pub mod Killed
pub mod Gap
pub mod Tests
use os_risc_v.Prelude.{
  ℕ, zero, suc, ◌+◌, Bool, true, false, ℤ, pos, negsuc, neg, is_neg, ◌==◌, if◌then◌else◌,
}
use os_risc_v.Sched.{Sched, sleep, wakeup}

pub record Kernel : Type 0 where
  pub sched : Sched
  pub value : ℕ → ℤ

abbrev pub set_value : ℕ → ℤ → (ℕ → ℤ) → ℕ → ℤ
set_value a v value b = if b == a then v else value b

abbrev pub pred : ℤ → ℤ
pred (pos zero) = negsuc 0
pred (pos (suc n)) = pos n
pred (negsuc n) = negsuc (suc n)

abbrev pub next : ℤ → ℤ
next (pos n) = pos (suc n)
next (negsuc n) = neg n

-- v <= 0
abbrev pub is_le_zero : ℤ → Bool
is_le_zero (pos zero) = true
is_le_zero (pos (suc n)) = false
is_le_zero (negsuc n) = true

unfoldable pub init_semephonre : ℕ → ℤ → Kernel → Kernel
init_semephonre sem v k = record k { value = set_value sem v k.value }

-- `P`, by the process `p` that runs on hart `h`, with the clock at `t`.
unfoldable pub sem_p : ℕ → ℕ → ℕ → ℕ → Kernel → Kernel
unfolding sleep
sem_p h t sem p k =
    let v = pred (k.value sem) in
    record k {
      value = set_value sem v k.value;
      sched = if is_neg v then sleep h t sem p k.sched else k.sched;
    }

-- `V`
unfoldable pub sem_v : ℕ → Kernel → Kernel
unfolding wakeup
sem_v sem k =
    let v = next (k.value sem) in
    record k {
      value = set_value sem v k.value;
      sched = if is_le_zero v then wakeup sem k.sched else k.sched;
    }
