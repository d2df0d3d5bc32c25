-- ===== src/Sched/Sem/Killed.antt =====
-- `sys_kill` of os/kernel/procsyscall.c takes a process off the sleep list and leaves the value of its
-- semaphore.
use os_risc_v.Prelude.{ℕ, ◌≡◌, refl, ap, some, none, [], ◌∷◌, ◌++◌, arith, Distinct, ℤ, pos, negsuc}
use os_risc_v.Sched.{Sched, first_for, rouse, wake, wakeup, sleep, unlink, asleep, ready}
use os_risc_v.Sched.Waiters.{first_for-waiters, waiters-unlink}
use os_risc_v.Sched.Sem.{Kernel, sem_p, sem_v}
use os_risc_v.Sched.Sem.Values.{debt}
use os_risc_v.Sched.Sem.Effects.{waiting_for, IsSettled}

abbrev pub kill : ℕ → Kernel → Kernel
kill p k = record k { sched = rouse p k.sched }

first_for-alone :
    (sem p : ℕ) (s : Sched)
    → waiting_for sem s ≡ p ∷ []
    → first_for sem s.procs s.sleep_list ≡ some p
first_for-alone sem p s e = rw (first_for-waiters sem s.procs s.sleep_list, e) refl

rouse-alone :
    (sem p : ℕ) (s : Sched)
    → Distinct s.sleep_list
    → waiting_for sem s ≡ p ∷ []
    → (s.procs p).status ≡ asleep
    → ((rouse p s).sleep_list ≡ unlink p s.sleep_list) × (waiting_for sem (rouse p s) ≡ [])
unfolding rouse wake
rouse-alone sem p s d e a =
    let c = record (s.procs p) { status = ready; waits_for = none } in
    rw a (
      ground
        (arith, e, waiters-unlink sem sem p c s.procs s.sleep_list d (first_for-alone sem p s e)))

pub wakeup-nobody : (sem : ℕ) (s : Sched) → waiting_for sem s ≡ [] → wakeup sem s ≡ s
unfolding wakeup wake
wakeup-nobody sem s e = rw (first_for-waiters sem s.procs s.sleep_list, e) refl

debt-one : (v : ℤ) → debt v ≡ 1 → v ≡ negsuc 0
debt-one (pos n) e = absurd (omega (arith, e))
debt-one (negsuc n) e = ap negsuc (omega (arith, e))

sem_v-sem_p-nobody :
    (h t sem q : ℕ) (k : Kernel)
    → k.value sem ≡ negsuc 0
    → waiting_for sem k.sched ≡ []
    → ((sem_p h t sem q (sem_v sem k)).sched.sleep_list ≡ k.sched.sleep_list ++ q ∷ [])
      × ((sem_p h t sem q (sem_v sem k)).sched.cur_proc h ≡ none)
unfolding sem_p sem_v sleep
sem_v-sem_p-nobody h t sem q k v e = rw (v, wakeup-nobody sem k.sched e) (ground arith)

-- Where the only process that waits for a semaphore is killed, the next `V` is lost: a process that
-- comes after it to the same semaphore goes to sleep.
pub kill-lost :
    (h t sem p q : ℕ) (k : Kernel)
    → IsSettled k
    → waiting_for sem k.sched ≡ p ∷ []
    → (k.sched.procs p).status ≡ asleep
    → let u = sem_p h t sem q (sem_v sem (kill p k)) in
      (u.sched.sleep_list ≡ unlink p k.sched.sleep_list ++ q ∷ []) × (u.sched.cur_proc h ≡ none)
kill-lost h t sem p q k i e a =
    let v = debt-one (k.value sem) (ground (arith, i.settled sem, e)) in
    let (l, w) = rouse-alone sem p k.sched i.distinct e a in
    let (s, c) = sem_v-sem_p-nobody h t sem q (kill p k) v w in (rw s (rw l refl), c)
