-- ===== src/Sched/Sem/Tests.antt =====
-- Semaphores with two processes.
use os_risc_v.Prelude.{
  ℕ, ◌≡◌, refl, none, some, [], ◌∷◌, ◌++◌, ◌==◌, if◌then◌else◌, pos, negsuc, arith,
}
use os_risc_v.Sched.{asleep, Proc}
use os_risc_v.Sched.Sem.{Kernel, sem_p, sem_v}
use os_risc_v.Sched.Sem.Effects.{waiting_for, IsSettled, first}
use os_risc_v.Sched.Sem.Refines.{down, up, gate_of, sem_p-Gate, sem_v-Gate}

abbrev pub sleeper : Proc
sleeper = record {
  status = asleep;
  t_wait = 0;
  t_slice = 0;
  waits_for = some 100;
  start_time = 1;
  utime_start = 1;
  stime_start = 0;
  stime = 0;
}

-- Process 1 sleeps on the semaphore at 100, and process 2 runs.
abbrev pub one_waits : Kernel
one_waits = record {
  sched = record {
    procs = λ p. sleeper;
    ready_list = 0 ∷ [];
    wait_list = [];
    sleep_list = 1 ∷ [];
    cur_proc = λ h. if h == 0 then some 2 else none;
    last_timer = λ h. 0;
    ticks = 0;
  };
  value = λ a. if a == 100 then negsuc 0 else pos 3;
}

one_waits-IsSettled : IsSettled one_waits
one_waits-IsSettled = record { distinct = (refl, tt); settled = λ b. ground arith }

sem_p-Gate_example :
    IsSettled (sem_p 0 9 100 2 one_waits)
    × ((a : ℕ)
        → gate_of a (sem_p 0 9 100 2 one_waits)
          ≡ (if a == 100 then down 2 (gate_of 100 one_waits) else gate_of a one_waits))
sem_p-Gate_example = sem_p-Gate 0 9 100 2 one_waits one_waits-IsSettled refl

sem_v-Gate_example :
    IsSettled (sem_v 100 one_waits)
    × ((sem_v 100 one_waits).sched.ready_list
        ≡ first (waiting_for 100 one_waits.sched) ++ one_waits.sched.ready_list)
    × ((a : ℕ)
        → gate_of a (sem_v 100 one_waits)
          ≡ (if a == 100 then up (gate_of 100 one_waits) else gate_of a one_waits))
sem_v-Gate_example = sem_v-Gate 100 one_waits one_waits-IsSettled

-- The same processes, where the semaphore at 200 has no pass and nobody waits for it.
abbrev none_left : Kernel
none_left = record one_waits { value = λ a. pos 0 }
