-- ===== src/Sched/Sem/Values.antt =====
-- The values of a semaphore under the counting of os/kernel/sem.c.
use os_risc_v.Prelude.{
  ℕ, zero, suc, false, ◌+◌, ◌-◌, ◌≡◌, refl, not, ◌==◌, arith, if◌then◌else◌, ℤ, pos, negsuc, is_neg,
}
use os_risc_v.Sched.Sem.{pred, next, is_le_zero}

abbrev pub credit_of : ℤ → ℕ
credit_of (pos n) = n
credit_of (negsuc n) = 0

abbrev pub debt : ℤ → ℕ
debt (pos n) = 0
debt (negsuc n) = suc n

pub is_neg-pred : (v : ℤ) → is_neg (pred v) ≡ (credit_of v == 0)
is_neg-pred (pos zero) = refl
is_neg-pred (pos (suc n)) = ground arith
is_neg-pred (negsuc n) = refl

pub credit_of-pred : (v : ℤ) → credit_of (pred v) ≡ credit_of v - 1
credit_of-pred (pos zero) = omega arith
credit_of-pred (pos (suc n)) = omega arith
credit_of-pred (negsuc n) = omega arith

pub debt-pred : (v : ℤ) → debt (pred v) ≡ (if credit_of v == 0 then suc (debt v) else 0)
debt-pred (pos zero) = refl
debt-pred (pos (suc n)) = ground arith
debt-pred (negsuc n) = refl

pub credit_of-next : (v : ℤ) → credit_of (next v) ≡ (if debt v == 0 then credit_of v + 1 else 0)
credit_of-next (pos n) = ground arith
credit_of-next (negsuc zero) = refl
credit_of-next (negsuc (suc n)) = ground arith

pub debt-next : (v : ℤ) → debt (next v) ≡ debt v - 1
debt-next (pos n) = omega arith
debt-next (negsuc zero) = omega arith
debt-next (negsuc (suc n)) = omega arith

pub is_le_zero-next : (v : ℤ) → is_le_zero (next v) ≡ not (debt v == 0)
is_le_zero-next (pos n) = refl
is_le_zero-next (negsuc zero) = refl
is_le_zero-next (negsuc (suc n)) = ground arith

-- A value is never a credit and a debt at once.
pub debt-credit_of : (v : ℤ) → (debt v == 0) ≡ false → credit_of v ≡ 0
debt-credit_of (pos n) e = ground arith
debt-credit_of (negsuc n) e = refl
