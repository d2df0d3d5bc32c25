-- ===== src/Sched/Sem/Effects.antt =====
-- What `P` and `V` of os/kernel/sem.c do to the processes that wait for a semaphore.
use os_risc_v.Prelude.{
  ℕ, ◌-◌, ◌≡◌, refl, false, none, some, List, append-nil, [], ◌∷◌, ◌++◌, ◌==◌, arith, ◌&&◌,
  if◌then◌else◌, has, Distinct, length, inl, inr, Option-cases,
}
use os_risc_v.Sched.{Sched, set_proc, sleep, first_for, wake, wakeup, stopped, asleep, ready}
use os_risc_v.Sched.Waiters.{
  waiters, tail, waiters-append, waiters-set, first_for-waiters, Distinct-unlink, Distinct-add,
  waiters-unlink,
}
use os_risc_v.Sched.Sem.{Kernel, sem_p, sem_v}
use os_risc_v.Sched.Sem.Values.{credit_of, debt, is_neg-pred, is_le_zero-next}

abbrev pub waiting_for : ℕ → Sched → List ℕ
waiting_for a s = waiters a s.procs s.sleep_list

-- A negative value is the number of processes asleep on the semaphore, and no process stands twice on
-- the sleep list.
pub record IsSettled (k : Kernel) : Type 0 where
  pub distinct : Distinct k.sched.sleep_list
  pub settled : (a : ℕ) → debt (k.value a) ≡ length (waiting_for a k.sched)

abbrev pub first : List ℕ → List ℕ
first [] = []
first (x ∷ xs) = x ∷ []

pub waiting_for-sleep :
    (h t sem p a : ℕ) (s : Sched)
    → has p s.sleep_list ≡ false
    → waiting_for a (sleep h t sem p s)
      ≡ (if a == sem then waiting_for sem s ++ p ∷ [] else waiting_for a s)
unfolding sleep
waiting_for-sleep h t sem p a s e =
    let c = stopped t (record (s.procs p) { status = asleep; waits_for = some sem }) in
    rw
      (
        waiters-append a (set_proc p c s.procs) s.sleep_list (p ∷ []),
        waiters-set a p c s.procs s.sleep_list e,
      )
      (ground (arith, append-nil (waiting_for a s)))

pub waiting_for-wakeup :
    (sem a : ℕ) (s : Sched)
    → Distinct s.sleep_list
    → waiting_for a (wakeup sem s)
      ≡ (if a == sem then tail (waiting_for sem s) else waiting_for a s)
unfolding wakeup wake
waiting_for-wakeup sem a s d = elim (Option-cases (first_for sem s.procs s.sleep_list)) [
  | inl e ↦ rw e (ground (arith, e, first_for-waiters sem s.procs s.sleep_list))
  | inr (p, e) ↦
      let c = record (s.procs p) { status = ready; waits_for = none } in
      rw e (waiters-unlink sem a p c s.procs s.sleep_list d e)
]

pub Distinct-wakeup :
    (sem : ℕ) (s : Sched) → Distinct s.sleep_list → Distinct (wakeup sem s).sleep_list
unfolding wakeup wake
Distinct-wakeup sem s d = elim (Option-cases (first_for sem s.procs s.sleep_list)) [
  | inl e ↦ rw e d
  | inr (p, e) ↦ rw e (Distinct-unlink p s.sleep_list d)
]

pub Distinct-sleep :
    (h t sem p : ℕ) (s : Sched)
    → Distinct s.sleep_list
    → has p s.sleep_list ≡ false
    → Distinct (sleep h t sem p s).sleep_list
unfolding sleep
Distinct-sleep h t sem p s d e = Distinct-add p s.sleep_list d e

pub ready_list-wakeup :
    (sem : ℕ) (s : Sched) → (wakeup sem s).ready_list ≡ first (waiting_for sem s) ++ s.ready_list
unfolding wakeup wake
ready_list-wakeup sem s = elim (Option-cases (first_for sem s.procs s.sleep_list)) [
  | inl e ↦ rw e (ground (arith, e, first_for-waiters sem s.procs s.sleep_list))
  | inr (p, e) ↦ rw e (ground (arith, e, first_for-waiters sem s.procs s.sleep_list))
]

pub length-tail : (xs : List ℕ) → length (tail xs) ≡ length xs - 1
length-tail [] = omega arith
length-tail (x ∷ xs) = omega arith

pub tail-empty : (xs : List ℕ) → length xs ≡ 0 → (tail xs ≡ xs) × (first xs ≡ [])
tail-empty [] e = (refl, refl)
tail-empty (x ∷ xs) e = absurd (omega (arith, e))

pub sem_p-waiting :
    (h t sem p a : ℕ) (k : Kernel)
    → has p k.sched.sleep_list ≡ false
    → waiting_for a (sem_p h t sem p k).sched ≡ (
        if a == sem && credit_of (k.value sem) == 0
        then waiting_for sem k.sched ++ p ∷ []
        else waiting_for a k.sched)
unfolding sem_p
sem_p-waiting h t sem p a k e =
    rw (is_neg-pred (k.value sem)) (ground (arith, waiting_for-sleep h t sem p a k.sched e))

pub sem_v-waiting :
    (sem a : ℕ) (k : Kernel)
    → IsSettled k
    → waiting_for a (sem_v sem k).sched
      ≡ (if a == sem then tail (waiting_for sem k.sched) else waiting_for a k.sched)
unfolding sem_v
sem_v-waiting sem a k i = rw (is_le_zero-next (k.value sem)) (
    ground (
      arith,
      i.settled sem,
      length-tail (waiting_for sem k.sched),
      tail-empty (waiting_for sem k.sched),
      waiting_for-wakeup sem a k.sched i.distinct,
    ))
