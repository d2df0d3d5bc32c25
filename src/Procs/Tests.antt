-- ===== src/Procs/Tests.antt =====
-- A process 5 with two children, one of which has a child, ends, and its parent waits.
use os_risc_v.Prelude.{
  ℕ, ◌≡◌, refl, ◌%◌, ◌^◌, ◌*◌, ◌≤◌, ◌++◌, true, false, none, some, [], ◌∷◌, pos, if◌then◌else◌,
  ◌==◌,
}
use os_risc_v.Sched.{Proc, ready, unlink}
use os_risc_v.Signals.{Signals, no_action}
use os_risc_v.Procs.{null, process, Procs, sys_exit, proc_n, is_vacant, get_pid, free_pid}
use os_risc_v.Procs.Reap.{sys_wait4, returns}
use os_risc_v.Procs.Pids.{Answer, get_pid-Answer}
use os_risc_v.Procs.Exit.{
  Exited, alive, sys_exit-Exited, sys_exit-orphan, after_exit, sys_exit-some,
}
use os_risc_v.Procs.Wait.{sys_wait4-sys_exit}

abbrev idle : Proc
idle = record {
  status = ready;
  t_wait = 0;
  t_slice = 0;
  waits_for = none;
  start_time = 0;
  utime_start = 0;
  stime_start = 0;
  stime = 0;
}

abbrev quiet : Signals
quiet = record {
  sigactions = λ i. no_action;
  pendings = [];
  receive_kill = 0;
  do_signal = false;
  tcontext = record { sp = 0; ra = 0; sepc = 0; a0 = 0; others = [] };
  frames = λ a. record { sp = 0; ra = 0; sepc = 0; a0 = 0; others = [] };
}

-- 4 is the parent of 5, and 5 that of 6.
abbrev family : Procs
family = record {
  kernel = record {
    sched = record {
      procs = λ p. idle;
      ready_list = [];
      wait_list = [];
      sleep_list = [];
      cur_proc = λ h. if h == 0 then some 5 else none;
      last_timer = λ h. 0;
      ticks = 0;
    };
    value = λ a. pos 0;
  };
  nodes = λ p. record {
    parent = if p == 5 then some 4 else if p == 6 then some 5 else none;
    children = if p == 4 then 5 ∷ [] else if p == 5 then 6 ∷ [] else [];
    code = 0;
    pid = p;
  };
  signals = λ p. quiet;
  pids = λ i.
      if i == 4
      then process 4
      else if i == 5
      then process 5
      else if i == 6
      then process 6
      else null;
  dead_list = [];
  freed = λ p. false;
}

sys_exit-Exited_example :
    (t : Procs) × (sys_exit true 0 100 3 5 family ≡ some t) × Exited 5 4 3 family t
sys_exit-Exited_example = sys_exit-Exited true 0 100 3 5 4 family refl refl refl

sys_exit-orphan_example : sys_exit true 0 200 0 6 (after_exit true 0 100 3 5 4 family) ≡ none
sys_exit-orphan_example =
    sys_exit-orphan true true 0 0 100 200 3 0 5 4 6 family (after_exit true 0 100 3 5 4 family)
      (after_exit true 0 100 3 5 4 family) refl refl refl refl
      (sys_exit-some true 0 100 3 5 4 family refl) refl

sys_wait4-sys_exit_example :
    (t : Procs) × (u : Procs) × (sys_exit true 0 100 3 5 family ≡ some t)
    × (sys_wait4 0 101 false none 4 t ≡ returns (pos 5) (some (3 % 2 ^ 8 * 2 ^ 8)) u)
    × ((u.nodes 4).children ≡ unlink 5 (5 ∷ []) ++ alive family (6 ∷ []))
    × (u.freed 5 ≡ true)
    × (u.kernel.value 4 ≡ pos 0)
sys_wait4-sys_exit_example =
    sys_wait4-sys_exit true 0 0 100 101 3 5 4 0 family refl refl refl refl (λ r i n. refl) refl refl

get_pid-Answer_example :
    Answer 0 proc_n family.pids (get_pid family.pids).0
    × ((get_pid family.pids).0 ≡ none → (get_pid family.pids).1 ≡ family.pids)
    × ((k : ℕ)
        → (get_pid family.pids).0 ≡ some k
        → (is_vacant ((get_pid family.pids).1 k) ≡ false)
          × ((j : ℕ) → (j == k) ≡ false → (get_pid family.pids).1 j ≡ family.pids j))
    × ((k : ℕ)
        → (get_pid family.pids).0 ≡ some k
        → 1 ≤ k
        → (j : ℕ) → free_pid k (get_pid family.pids).1 j ≡ family.pids j)
get_pid-Answer_example = get_pid-Answer family.pids
