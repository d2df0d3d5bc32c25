-- ===== src/Sched.antt =====
-- The lists of processes and the switches between them, os/kernel/sched.c and timer.c. A
-- `struct Process *` is the number of the process, a semaphore its address. `get_time` is an
-- argument, one reading for each call. The switch to the scheduler is written with what the
-- scheduler does first when it comes back, `cpu->cur_proc = 0`.
pub mod Counts
pub mod Conserve
pub mod Sem
pub mod Waiters
pub mod Turns
pub mod Expire
mod Tests
use os_risc_v.Prelude.{
  ℕ, ◌+◌, ◌-◌, ◌*◌, ◌/◌, ◌%◌, ◌^◌, ◌&&◌, Bool, true, false, not, Option, none, some, List, [], ◌∷◌,
  ◌++◌, ◌==◌, leb, ltb, if◌then◌else◌,
}

-- `PROC_DEAD` to `PROC_SLEEP`
pub data Status : Type 0 where
  dead running ready waiting asleep : Status

pub record Proc : Type 0 where
  pub status : Status
  pub t_wait : ℕ
  pub t_slice : ℕ
  pub waits_for : Option ℕ
  pub start_time : ℕ
  pub utime_start : ℕ
  pub stime_start : ℕ
  pub stime : ℕ

-- `cur_proc` is that of each hart.
pub record Sched : Type 0 where
  pub procs : ℕ → Proc
  pub ready_list : List ℕ
  pub wait_list : List ℕ
  pub sleep_list : List ℕ
  pub cur_proc : ℕ → Option ℕ
  pub last_timer : ℕ → ℕ
  pub ticks : ℕ

abbrev pub set_proc : ℕ → Proc → (ℕ → Proc) → ℕ → Proc
set_proc p c procs q = if q == p then c else procs q

abbrev pub set_cur : ℕ → Option ℕ → (ℕ → Option ℕ) → ℕ → Option ℕ
set_cur h o cur k = if k == h then o else cur k

-- `del_list` on the sequence of a list.
unfoldable pub unlink : ℕ → List ℕ → List ℕ
unlink p [] = []
unlink p (q ∷ qs) = if p == q then qs else q ∷ unlink p qs

-- TIMER_FRQ of the board _QEMU, and T_SLICE * TIMER_FRQ / 1000.
abbrev pub timer_frq : ℕ
timer_frq = 10000000

abbrev pub slice : ℕ
slice = 100 * timer_frq / 1000

-- The process that `scheduler` takes and the end of its slice: process 0 only where it is alone.
unfoldable pub choose : ℕ → ℕ → List ℕ → ℕ × ℕ
choose t p [] = (p, t)
choose t p (q ∷ qs) = if p == 0 then (q, (t + slice) % 2 ^ 64) else (p, t)

-- The times that a process keeps when it is switched to.
unfoldable pub started : ℕ → ℕ → Proc → Proc
started t slice_end c =
    let d = record c { status = running; t_slice = slice_end } in
    if c.start_time == 0
    then record d { start_time = t; utime_start = t; stime_start = 0 }
    else record d { stime_start = t }

-- One round of the loop of `scheduler` on hart `h` at the given ready list; with no ready process it
-- waits.
unfoldable pub dispatch : ℕ → ℕ → List ℕ → Sched → Sched
unfolding choose started unlink
dispatch h t [] s = record s { cur_proc = set_cur h none s.cur_proc }
dispatch h t (p ∷ ps) s =
    let (q, slice_end) = choose t p ps in
    record s {
      procs = set_proc q (started t slice_end (s.procs q)) s.procs;
      ready_list = unlink q (p ∷ ps);
      cur_proc = set_cur h (some q) s.cur_proc;
    }

unfoldable pub schedule : ℕ → ℕ → Sched → Sched
unfolding dispatch
schedule h t s = dispatch h t s.ready_list s

-- What `move_switch2sched` writes to the process that leaves.
abbrev pub stopped : ℕ → Proc → Proc
stopped t c = record c {
  stime = (c.stime + (t + 2 ^ 64 - c.stime_start)) % 2 ^ 64;
  stime_start = 0;
}

-- `sleep`, by the process `p` that runs on hart `h`.
unfoldable pub sleep : ℕ → ℕ → ℕ → ℕ → Sched → Sched
sleep h t sem p s = record s {
  procs =
      set_proc p (stopped t (record (s.procs p) { status = asleep; waits_for = some sem })) s.procs;
  sleep_list = s.sleep_list ++ p ∷ [];
  cur_proc = set_cur h none s.cur_proc;
}

-- `sys_sched_yield`, by the process `p` that runs on hart `h`.
unfoldable pub yields : ℕ → ℕ → ℕ → Sched → Sched
yields h t p s = record s {
  procs = set_proc p (stopped t (record (s.procs p) { status = ready })) s.procs;
  ready_list = s.ready_list ++ p ∷ [];
  cur_proc = set_cur h none s.cur_proc;
}

-- `sys_nanosleep` and `sys_clock_nanosleep` with a request of `sec` seconds and `nsec` nanoseconds:
-- the clock is read at `t`, and again at `t'` in `move_switch2sched`.
unfoldable pub nanosleep : ℕ → ℕ → ℕ → ℕ → ℕ → ℕ → Sched → Sched
nanosleep h t t' sec nsec p s =
    let until = (t + (sec * timer_frq + nsec * timer_frq / 1000000000)) % 2 ^ 64 in
    record s {
      procs =
          set_proc p (stopped t' (record (s.procs p) { t_wait = until; status = waiting })) s.procs;
      wait_list = s.wait_list ++ p ∷ [];
      cur_proc = set_cur h none s.cur_proc;
    }

abbrev pub is_for : ℕ → Option ℕ → Bool
is_for sem none = false
is_for sem (some a) = a == sem

-- The search of `wakeup`: the first process of the list that waits for the semaphore.
unfoldable pub first_for : ℕ → (ℕ → Proc) → List ℕ → Option ℕ
first_for sem procs [] = none
first_for sem procs (p ∷ ps) =
    if is_for sem (procs p).waits_for then some p else first_for sem procs ps

unfoldable pub wake : Option ℕ → Sched → Sched
unfolding unlink
wake none s = s
wake (some p) s = record s {
  procs = set_proc p (record (s.procs p) { status = ready; waits_for = none }) s.procs;
  ready_list = p ∷ s.ready_list;
  sleep_list = unlink p s.sleep_list;
}

unfoldable pub wakeup : ℕ → Sched → Sched
unfolding wake first_for
wakeup sem s = wake (first_for sem s.procs s.sleep_list) s

abbrev pub is_asleep : Status → Bool
is_asleep asleep = true
is_asleep other = false

-- What `sys_kill` does to the lists after it has sent the signal.
unfoldable pub rouse : ℕ → Sched → Sched
unfolding wake
rouse p s = if is_asleep (s.procs p).status then wake (some p) s else s

-- The loop of `set_next_time` over the list of waiting processes: the processes, those that go on
-- waiting, and the ready list.
unfoldable pub expire : ℕ → (ℕ → Proc) → List ℕ → List ℕ → (ℕ → Proc) × List ℕ × List ℕ
expire t procs [] queue = (procs, [], queue)
expire t procs (p ∷ ps) queue = elim (leb (procs p).t_wait t) [
  | true ↦ expire t (set_proc p (record (procs p) { t_wait = 0 }) procs) ps (queue ++ p ∷ [])
  | false ↦ let (procs', kept, queue') = expire t procs ps queue in (procs', p ∷ kept, queue')
]

-- The running process of hart `h` goes to the end of the ready list when its slice is over.
unfoldable pub preempt : ℕ → ℕ → Option ℕ → Sched → Sched
preempt h t none s = s
preempt h t (some p) s =
    if leb (s.procs p).t_slice t
    then record s {
      procs = set_proc p (stopped t (record (s.procs p) { status = ready })) s.procs;
      ready_list = s.ready_list ++ p ∷ [];
      cur_proc = set_cur h none s.cur_proc;
    }
    else s

-- The part of `set_next_time` under its first test, with `timerprint`; `none` is the endless loop
-- that it enters at tick 16500.
unfoldable pub tick : Bool → ℕ → ℕ → ℕ → Sched → Option Sched
unfolding expire
tick print tbase h t s =
    let n = if print then s.ticks + 1 else s.ticks in
    let (procs, kept, queue) = expire t s.procs s.wait_list s.ready_list in
    if print && (n % 100 == 0 && not (ltb n 16500))
    then none
    else some (record s {
      procs = procs;
      ready_list = queue;
      wait_list = kept;
      last_timer = λ k. if k == h then (t + tbase) % 2 ^ 64 else s.last_timer k;
      ticks = n;
    })

unfoldable pub set_next_time : Bool → ℕ → ℕ → ℕ → Sched → Option Sched
unfolding tick preempt
set_next_time print tbase h t s =
    if leb (s.last_timer h) t
    then elim (tick print tbase h t s) [
      | none ↦ none
      | some u ↦ some (preempt h t (u.cur_proc h) u)
    ]
    else some (preempt h t (s.cur_proc h) s)

-- CPU_N
abbrev pub harts : ℕ
harts = 2

unfoldable pub sched_init : Sched → Sched
sched_init s = record s { ready_list = []; wait_list = []; sleep_list = [] }

-- `timer_init`, which sets `tbase`.
unfoldable pub timer_init : Bool → ℕ → ℕ → ℕ → Sched → Option Sched
unfolding set_next_time
timer_init print stime_value h t s =
    set_next_time print stime_value h t
      (record s { last_timer = λ k. if ltb k harts then 0 else s.last_timer k })
