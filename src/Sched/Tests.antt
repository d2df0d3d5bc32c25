-- ===== src/Sched/Tests.antt =====
-- The scheduler on three processes.
use os_risc_v.Prelude.{
  ℕ, ◌≡◌, refl, none, some, [], ◌∷◌, ◌++◌, ◌*◌, ◌≤◌, ◌&&◌, not, arith, if◌then◌else◌, has,
}
use os_risc_v.Sched.{
  ready, Proc, Sched, schedule, sleep, wakeup, expire, dispatch, choose, started, unlink, first_for,
  wake,
}
use os_risc_v.Sched.Conserve.{places, Steps, dispatches, sleeps, wakes, start, more, places-Steps}
use os_risc_v.Sched.Expire.{those, is_due, released, expire-those}
use os_risc_v.Sched.Turns.{turns, runs-turns}

abbrev fresh : Proc
fresh = record {
  status = ready;
  t_wait = 0;
  t_slice = 0;
  waits_for = none;
  start_time = 0;
  utime_start = 0;
  stime_start = 0;
  stime = 0;
}

abbrev three : Sched
three = record {
  procs = λ p. record fresh { t_wait = p * 10 };
  ready_list = 0 ∷ 1 ∷ 2 ∷ [];
  wait_list = 5 ∷ 3 ∷ 4 ∷ [];
  sleep_list = [];
  cur_proc = λ h. none;
  last_timer = λ h. 0;
  ticks = 0;
}

-- Process 1 runs and goes to sleep on the semaphore at 100, which wakes it.
abbrev slept : Sched
slept = sleep 0 7 100 1 (schedule 0 5 three)

runs_one : (schedule 0 5 three).cur_proc 0 ≡ some 1
unfolding schedule dispatch choose started unlink
runs_one = refl

woken : (wakeup 100 slept).ready_list ≡ 1 ∷ 0 ∷ 2 ∷ []
unfolding wakeup wake first_for sleep schedule dispatch choose started unlink
woken = refl

run_one : Steps three (wakeup 100 slept)
run_one =
    more three slept (wakeup 100 slept)
      (more three (schedule 0 5 three) slept
        (more three three (schedule 0 5 three) (start three)
          (dispatches 0 5 three (omega arith) refl))
        (sleeps 0 7 100 1 (schedule 0 5 three) (omega arith) runs_one))
      (wakes 100 slept)

places-Steps_example : places 1 (wakeup 100 slept) ≡ places 1 three
places-Steps_example = places-Steps 1 three (wakeup 100 slept) run_one

expire-those_example :
    let r = expire 42 three.procs three.wait_list three.ready_list in
    (r.1 ≡ those (λ p. not (is_due 42 three.procs p)) three.wait_list)
    × (r.2 ≡ three.ready_list ++ those (is_due 42 three.procs) three.wait_list)
    × ((q : ℕ)
        → r.0 q ≡ (
            if has q three.wait_list && is_due 42 three.procs q
            then released (three.procs q)
            else three.procs q))
expire-those_example = expire-those 42 three.procs three.wait_list three.ready_list

runs-turns_example :
    (n : ℕ) × (n ≤ 2) × ((schedule 0 (2 * n) (turns n 0 (λ k. k) three)).cur_proc 0 ≡ some 2)
runs-turns_example =
    runs-turns 2 0 2 (λ k. k) three refl (λ e. absurd (omega (arith, e))) (omega arith)
