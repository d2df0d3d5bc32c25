-- ===== src/Procs.antt =====
-- The life of processes: os/kernel/process.c, and sys_exit, sys_getpid and sys_getppid of
-- os/kernel/procsyscall.c. Procs/Reap has what a parent does with a dead child. A `struct Process *` is a number,
-- which names the semaphore sleep_lock of the process too. The lists of children are sequences; the
-- status of a process is that of Sched. What the end of a process does to its memory, files and
-- directory is not in this part; a call runs with no other hart in between.
pub mod Pids
pub mod Exit
pub mod Reap
pub mod Wait
mod Tests
use os_risc_v.Prelude.{
  ℕ, zero, suc, ◌+◌, ◌-◌, ◌*◌, ◌%◌, ◌^◌, ◌&&◌, ◌||◌, Bool, true, false, not, Option, none, some,
  List, [], ◌∷◌, ◌++◌, ◌==◌, ltb, leb, if◌then◌else◌, ℤ, pos, negsuc, is_neg,
}
use os_risc_v.Sched.{Sched, Proc, Status, dead, ready, slice, set_proc, set_cur, stopped, unlink}
use os_risc_v.Sched.Sem.{Kernel, set_value, sem_p, sem_v}
use os_risc_v.Signals.{Signals, init_proc_sigactions, send_signal}

-- An entry of `pids`: NULL, the 1 of `get_pid`, or a process.
pub data Slot : Type 0 where
  null reserved : Slot
  process : ℕ → Slot

-- PROC_N
abbrev pub proc_n : ℕ
proc_n = 100

abbrev pub is_vacant : Slot → Bool
is_vacant null = true
is_vacant _ = false

abbrev pub set_slot : ℕ → Slot → (ℕ → Slot) → ℕ → Slot
set_slot i x pids j = if j == i then x else pids j

-- The loop of `get_pid`, with the rounds left.
unfoldable pub pid_loop : ℕ → ℕ → (ℕ → Slot) → Option ℕ
pid_loop zero i pids = none
pid_loop (suc n) i pids =
    let rest = pid_loop n (i + 1) pids in if is_vacant (pids i) then some i else rest

abbrev pub reserve : Option ℕ → (ℕ → Slot) → ℕ → Slot
reserve none pids = pids
reserve (some i) pids = set_slot i reserved pids

-- `proc_init`
abbrev pub proc_init : ℕ → Slot
proc_init i = null

-- `none` is -1.
unfoldable pub get_pid : (ℕ → Slot) → Option ℕ × (ℕ → Slot)
unfolding pid_loop
get_pid pids = let i = pid_loop proc_n 0 pids in (i, reserve i pids)

unfoldable pub free_pid : ℕ → (ℕ → Slot) → ℕ → Slot
free_pid pid pids = if leb 1 pid && ltb pid proc_n then set_slot pid null pids else pids

unfoldable pub get_proc_by_pid : ℕ → (ℕ → Slot) → Slot
get_proc_by_pid pid pids = if leb 1 pid && ltb pid proc_n then pids pid else null

pub record Node : Type 0 where
  pub parent : Option ℕ
  pub children : List ℕ
  pub code : ℕ
  pub pid : ℕ

-- `freed` says which processes have been given to kfree.
pub record Procs : Type 0 where
  pub kernel : Kernel
  pub nodes : ℕ → Node
  pub signals : ℕ → Signals
  pub pids : ℕ → Slot
  pub dead_list : List ℕ
  pub freed : ℕ → Bool

abbrev pub set_node : ℕ → Node → (ℕ → Node) → ℕ → Node
set_node p c nodes q = if q == p then c else nodes q

abbrev pub is_dead : Status → Bool
is_dead dead = true
is_dead other = false

abbrev pub dead_in : Procs → ℕ → Bool
dead_in s p = is_dead (s.kernel.sched.procs p).status

-- What `new_proc` writes to a process, at the time `t`, and to its signals.
abbrev pub ready_proc : ℕ → Proc → Proc
ready_proc t c = record c {
  status = ready;
  t_wait = 0;
  t_slice = (t + slice) % 2 ^ 64;
  start_time = 0;
  utime_start = 0;
  stime = 0;
}

abbrev pub no_signals : Signals → Signals
no_signals g = record (init_proc_sigactions g) { pendings = []; receive_kill = 0 }

abbrev pub new_kernel : ℕ → ℕ → Kernel → Kernel
new_kernel t p k = record {
  sched = record k.sched { procs = set_proc p (ready_proc t (k.sched.procs p)) k.sched.procs };
  value = set_value p (pos 0) k.value;
}

-- `new_proc` at the time `t`, with the address from kmalloc; the page of its kernel stack is left
-- out. `none` is the write to `pids[-1]`.
unfoldable pub new_proc : ℕ → ℕ → Procs → Option Procs
unfolding get_pid init_proc_sigactions
new_proc t p s =
    let (i, pids) = get_pid s.pids in
    elim i [
      | none ↦ none
      | some pid ↦ some (record s {
        kernel = new_kernel t p s.kernel;
        pids = set_slot pid (process p) pids;
        nodes =
            set_node p (record { parent = none; children = []; code = (s.nodes p).code; pid = pid })
              s.nodes;
        signals = λ q. if q == p then no_signals (s.signals p) else s.signals q;
        freed = λ q. if q == p then false else s.freed q;
      })
    ]

-- What `sys_clone` does to the tree of processes: `child->parent = parent`, and the child goes to the
-- end of its parent's list.
unfoldable pub enter_child : ℕ → ℕ → Procs → Procs
enter_child parent child s = record s {
  nodes =
      let with_parent = set_node child (record (s.nodes child) { parent = some parent }) s.nodes in
      set_node parent
        (record (with_parent parent) { children = (with_parent parent).children ++ child ∷ [] })
        with_parent;
}

-- `free_process_struct`
unfoldable pub free_process_struct : ℕ → Procs → Procs
unfolding free_pid
free_process_struct p s = record s {
  pids = free_pid (s.nodes p).pid s.pids;
  freed = λ q. if q == p then true else s.freed q;
}

abbrev pub add_child : ℕ → ℕ → (ℕ → Node) → ℕ → Node
add_child q c nodes =
    set_node q (record (nodes q) { children = (nodes q).children ++ c ∷ [] }) nodes

-- One round of the loop of `sys_exit` and `kill_current`: the child `c` loses its parent; it is freed
-- if it is dead, and else goes to the list of `q`.
unfoldable pub adopt_one : ℕ → ℕ → Procs → Procs
unfolding free_process_struct
adopt_one q c s =
    let t = record s { nodes = set_node c (record (s.nodes c) { parent = none }) s.nodes } in
    if dead_in s c then free_process_struct c t else record t { nodes = add_child q c t.nodes }

-- The loop over the children. The process that ends keeps its list: `add_before` leaves the links of
-- this list broken, and nothing reads them any more.
unfoldable pub adopt : ℕ → List ℕ → Procs → Procs
unfolding adopt_one
adopt q [] s = s
adopt q (c ∷ cs) s = adopt q cs (adopt_one q c s)

abbrev pub set_status : ℕ → Status → Procs → Procs
set_status p x s = record s {
  kernel = record s.kernel {
    sched = record s.kernel.sched {
      procs = set_proc p (record (s.kernel.sched.procs p) { status = x }) s.kernel.sched.procs;
    };
  };
}

-- SIGCHLD
abbrev pub sigchld : ℕ
sigchld = 17

-- `send_signal(parent, SIGCHLD)`, `V(&parent->sleep_lock)` and the switch to the scheduler.
unfoldable pub depart : Bool → ℕ → ℕ → ℕ → ℕ → Procs → Procs
unfolding send_signal sem_v
depart mem h t p q s =
    let k = sem_v q s.kernel in
    record s {
      signals = λ r.
          if r == q then send_signal mem (s.nodes p).pid sigchld (s.signals q) else s.signals r;
      kernel = record k {
        sched = record k.sched {
          procs = set_proc p (stopped t (k.sched.procs p)) k.sched.procs;
          cur_proc = set_cur h none k.sched.cur_proc;
        };
      };
      dead_list = s.dead_list ++ p ∷ [];
    }

-- `sys_exit` with the given code, by the process `p` on hart `h`, with the clock at `t`; `mem` says
-- whether there is memory for the signal. `none` is the use of a null parent. `kill_current` is this
-- with the code 0.
unfoldable pub sys_exit : Bool → ℕ → ℕ → ℕ → ℕ → Procs → Option Procs
unfolding adopt depart
sys_exit mem h t code p s =
    let dying = set_status p dead s in
    let marked : Procs = record dying {
      nodes = set_node p (record (s.nodes p) { code = code % 2 ^ 8 }) s.nodes;
    } in
    elim (s.nodes p).parent [
      | none ↦ none
      | some q ↦ some (depart mem h t p q (adopt q (marked.nodes p).children marked))
    ]

unfoldable pub sys_getpid : ℕ → Procs → ℕ
sys_getpid p s = (s.nodes p).pid

unfoldable pub sys_getppid : ℕ → Procs → ℕ
sys_getppid p s = elim (s.nodes p).parent [ some q ↦ (s.nodes q).pid | none ↦ 0 ]
