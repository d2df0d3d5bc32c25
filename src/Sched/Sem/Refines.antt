-- ===== src/Sched/Sem/Refines.antt =====
-- A semaphore of os/kernel/sem.c as a number of free passes and the queue of those who wait for one.
use os_risc_v.Prelude.{
  ℕ, ◌+◌, ◌-◌, ◌≡◌, refl, false, List, [], ◌∷◌, ◌++◌, ◌==◌, arith, if◌then◌else◌, has, Distinct,
  length, length-append,
}
use os_risc_v.Sched.Waiters.{tail}
use os_risc_v.Sched.Sem.{Kernel, set_value, pred, next, sem_p, sem_v}
use os_risc_v.Sched.Sem.Values.{
  credit_of, credit_of-pred, debt-pred, credit_of-next, debt-next, is_le_zero-next, debt-credit_of,
}
use os_risc_v.Sched.Sem.Effects.{
  waiting_for, IsSettled, first, Distinct-wakeup, Distinct-sleep, ready_list-wakeup, length-tail,
  tail-empty, sem_p-waiting, sem_v-waiting,
}

pub record Gate : Type 0 where
  pub credit : ℕ
  pub queue : List ℕ

abbrev pub down : ℕ → Gate → Gate
down p g =
    if g.credit == 0
    then record g { queue = g.queue ++ p ∷ [] }
    else record g { credit = g.credit - 1 }

abbrev pub up : Gate → Gate
up g = elim g.queue [ [] ↦ record g { credit = g.credit + 1 } | p ∷ ps ↦ record g { queue = ps } ]

abbrev pub gate_of : ℕ → Kernel → Gate
gate_of a k = record { credit = credit_of (k.value a); queue = waiting_for a k.sched }

sem_v-ready_list :
    (sem : ℕ) (k : Kernel)
    → IsSettled k
    → (sem_v sem k).sched.ready_list ≡ first (waiting_for sem k.sched) ++ k.sched.ready_list
unfolding sem_v
sem_v-ready_list sem k i = rw (is_le_zero-next (k.value sem)) (
    ground
      (arith, i.settled sem, tail-empty (waiting_for sem k.sched), ready_list-wakeup sem k.sched))

up-lem :
    (c : ℕ) (q : List ℕ)
    → up (record { credit = c; queue = q }) ≡ (
        if length q == 0
        then record { credit = c + 1; queue = tail q }
        else record { credit = c; queue = tail q })
up-lem c [] = refl
up-lem c (x ∷ q) = ground arith

sem_v-Distinct : (sem : ℕ) (k : Kernel) → IsSettled k → Distinct (sem_v sem k).sched.sleep_list
unfolding sem_v
sem_v-Distinct sem k i = ground (arith, i.distinct, Distinct-wakeup sem k.sched i.distinct)

pub sem_p-value :
    (h t sem p a : ℕ) (k : Kernel)
    → (sem_p h t sem p k).value a ≡ set_value sem (pred (k.value sem)) k.value a
unfolding sem_p
sem_p-value h t sem p a k = refl

pub sem_v-value :
    (sem a : ℕ) (k : Kernel) → (sem_v sem k).value a ≡ set_value sem (next (k.value sem)) k.value a
unfolding sem_v
sem_v-value sem a k = refl

sem_p-Distinct :
    (h t sem p : ℕ) (k : Kernel)
    → IsSettled k
    → has p k.sched.sleep_list ≡ false
    → Distinct (sem_p h t sem p k).sched.sleep_list
unfolding sem_p
sem_p-Distinct h t sem p k i e =
    ground (arith, i.distinct, Distinct-sleep h t sem p k.sched i.distinct e)

sem_p-IsSettled :
    (h t sem p : ℕ) (k : Kernel)
    → IsSettled k
    → has p k.sched.sleep_list ≡ false
    → IsSettled (sem_p h t sem p k)
sem_p-IsSettled h t sem p k i e = record {
  distinct = sem_p-Distinct h t sem p k i e;
  settled = λ a. ground (
    arith,
    sem_p-value h t sem p a k,
    sem_p-waiting h t sem p a k e,
    debt-pred (k.value sem),
    debt-credit_of (k.value sem),
    length-append (waiting_for sem k.sched) (p ∷ []),
    i.settled sem,
    i.settled a,
  );
}

sem_v-IsSettled : (sem : ℕ) (k : Kernel) → IsSettled k → IsSettled (sem_v sem k)
sem_v-IsSettled sem k i = record {
  distinct = sem_v-Distinct sem k i;
  settled = λ a. ground (
    arith,
    sem_v-value sem a k,
    sem_v-waiting sem a k i,
    debt-next (k.value sem),
    length-tail (waiting_for sem k.sched),
    i.settled sem,
    i.settled a,
  );
}

-- `P` with no other hart in between passes the gate of its semaphore, or puts the process at the end
-- of the queue where no pass is left; the other gates stay, and a negative value goes on to be the
-- number of the processes asleep.
pub sem_p-Gate :
    (h t sem p : ℕ) (k : Kernel)
    → IsSettled k
    → has p k.sched.sleep_list ≡ false
    → IsSettled (sem_p h t sem p k)
      × ((a : ℕ)
          → gate_of a (sem_p h t sem p k)
            ≡ (if a == sem then down p (gate_of sem k) else gate_of a k))
sem_p-Gate h t sem p k i e = (
  sem_p-IsSettled h t sem p k i e,
  λ a. ground (
    arith,
    sem_p-value h t sem p a k,
    sem_p-waiting h t sem p a k e,
    credit_of-pred (k.value sem),
  ),
)

-- `V` with no other hart in between lets the first of the queue through, which becomes the first
-- ready process, or leaves a pass where nobody waits; the other gates stay, and a negative value goes
-- on to be the number of the processes asleep.
pub sem_v-Gate :
    (sem : ℕ) (k : Kernel)
    → IsSettled k
    → IsSettled (sem_v sem k)
      × ((sem_v sem k).sched.ready_list ≡ first (waiting_for sem k.sched) ++ k.sched.ready_list)
      × ((a : ℕ) → gate_of a (sem_v sem k) ≡ (if a == sem then up (gate_of sem k) else gate_of a k))
sem_v-Gate sem k i = (
  sem_v-IsSettled sem k i,
  sem_v-ready_list sem k i,
  λ a. ground (
    arith,
    sem_v-value sem a k,
    sem_v-waiting sem a k i,
    credit_of-next (k.value sem),
    i.settled sem,
    up-lem (credit_of (k.value sem)) (waiting_for sem k.sched),
    debt-credit_of (k.value sem),
  ),
)
