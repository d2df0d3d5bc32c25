-- ===== src/Sched/Sem/Gap.antt =====
-- `P` of os/kernel/sem.c in its two parts: it lets the lock of the semaphore go before `sleep`, so
-- that another hart may run `V` in between.
use os_risc_v.Prelude.{
  ℕ, zero, suc, ◌≡◌, refl, ◌∙◌, ap, ◌==◌, [], arith, if◌then◌else◌, ℤ, pos, negsuc,
}
use os_risc_v.Sched.{sleep, wakeup}
use os_risc_v.Sched.Sem.{Kernel, set_value, pred, next, is_le_zero, sem_v}
use os_risc_v.Sched.Sem.Effects.{waiting_for}
use os_risc_v.Sched.Sem.Killed.{wakeup-nobody}

-- The part with the lock held, and `sleep` where the value has come below zero.
unfoldable pub sem_p_count : ℕ → Kernel → Kernel
sem_p_count sem k = record k { value = set_value sem (pred (k.value sem)) k.value }

unfoldable pub sem_p_sleep : ℕ → ℕ → ℕ → ℕ → Kernel → Kernel
sem_p_sleep h t sem p k = record k { sched = sleep h t sem p k.sched }

-- `n` calls of `V`.
abbrev pub sem_vs : ℕ → ℕ → Kernel → Kernel
sem_vs zero sem k = k
sem_vs (suc n) sem k = sem_vs n sem (sem_v sem k)

same : (a : ℕ) (x y : ℤ) → (if a == a then x else y) ≡ x
same a x y = ground arith

value-sem_v : (sem : ℕ) (v : ℤ) (k : Kernel) → k.value sem ≡ v → (sem_v sem k).value sem ≡ next v
unfolding sem_v
value-sem_v sem v k e = same sem (next (k.value sem)) (k.value sem) ∙ ap next e

sched-sem_v :
    (sem : ℕ) (v : ℤ) (k : Kernel)
    → k.value sem ≡ v
    → (sem_v sem k).sched ≡ (if is_le_zero (next v) then wakeup sem k.sched else k.sched)
unfolding sem_v
sched-sem_v sem v k e =
    ap (λ (x : ℤ). if is_le_zero (next x) then wakeup sem k.sched else k.sched) e

sched-sem_vs : (n m sem : ℕ) (k : Kernel) → k.value sem ≡ pos m → (sem_vs n sem k).sched ≡ k.sched
sched-sem_vs zero m sem k e = refl
sched-sem_vs (suc n) m sem k e =
    sched-sem_vs n (suc m) sem (sem_v sem k) (value-sem_v sem (pos m) k e)
    ∙ sched-sem_v sem (pos m) k e

-- Where a process has found no pass and a `V` comes before it sleeps, it sleeps behind that `V`, and
-- no number of further calls of `V` alone wakes it.
pub sem_p_sleep-lost :
    (h t sem p n : ℕ) (k : Kernel)
    → k.value sem ≡ pos 0
    → waiting_for sem k.sched ≡ []
    → (sem_vs n sem (sem_p_sleep h t sem p (sem_v sem (sem_p_count sem k)))).sched
      ≡ sleep h t sem p k.sched
unfolding sem_p_count sem_p_sleep
sem_p_sleep-lost h t sem p n k e w =
    let u = sem_p_count sem k in
    let d : u.value sem ≡ negsuc 0 = same sem (pred (k.value sem)) (k.value sem) ∙ ap pred e in
    let c : (sem_v sem u).sched ≡ k.sched =
      sched-sem_v sem (negsuc 0) u d ∙ wakeup-nobody sem k.sched w in
    let v = value-sem_v sem (negsuc 0) u d in
    sched-sem_vs n 0 sem (sem_p_sleep h t sem p (sem_v sem u)) v ∙ ap (sleep h t sem p) c
