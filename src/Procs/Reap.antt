-- ===== src/Procs/Reap.antt =====
-- What a parent does with a dead child: sys_wait4 of os/kernel/procsyscall.c, and dfl_sigchld of
-- os/kernel/signal.c.
use os_risc_v.Prelude.{
  ℕ, ◌*◌, ◌^◌, ◌&&◌, Bool, Option, none, some, List, [], ◌∷◌, ◌==◌, if◌then◌else◌, ℤ, pos, negsuc,
  is_neg, ltb,
}
use os_risc_v.Sched.{unlink}
use os_risc_v.Sched.Sem.{sem_p, sem_v}
use os_risc_v.Procs.{Procs, set_node, dead_in, free_process_struct}

-- The search for a dead child, and for the child with a pid.
unfoldable pub first_dead : Procs → List ℕ → Option ℕ
first_dead s [] = none
first_dead s (c ∷ cs) = if dead_in s c then some c else first_dead s cs

unfoldable pub child_of_pid : Procs → ℕ → List ℕ → Option ℕ
child_of_pid s pid [] = none
child_of_pid s pid (c ∷ cs) = if (s.nodes c).pid == pid then some c else child_of_pid s pid cs

-- The child `c` is taken off the list of `p` and that of the dead, and freed.
unfoldable pub reap : ℕ → ℕ → Procs → Procs
unfolding unlink free_process_struct
reap p c s = free_process_struct c (record s {
  nodes = set_node p (record (s.nodes p) { children = unlink c (s.nodes p).children }) s.nodes;
  dead_list = unlink c s.dead_list;
})

-- What `sys_wait4` comes to: the value returned with what is stored at `code`, if anything is, a
-- process asleep in `P`, or one that has given the pass back and asks again.
pub data Waited : Type 0 where
  returns : ℤ → Option ℕ → Procs → Waited
  sleeps : Procs → Waited
  again : Procs → Waited

abbrev pub reaped : ℕ → ℕ → Procs → Waited
reaped p c s = returns (pos (s.nodes c).pid) (some ((s.nodes c).code * 2 ^ 8)) (reap p c s)

-- WNOHANG
unfoldable pub wait_nohang : Option ℕ → ℕ → Procs → Waited
unfolding first_dead child_of_pid reap
wait_nohang none p s = elim (first_dead s (s.nodes p).children) [
  | some c ↦ reaped p c s
  | none ↦ returns (pos 0) none s
]
wait_nohang (some pid) p s = elim (child_of_pid s pid (s.nodes p).children) [
  | some c ↦ if dead_in s c then reaped p c s else returns (pos 0) none s
  | none ↦ returns (negsuc 0) none s
]

abbrev pub pass : ℕ → ℕ → ℕ → Procs → Procs
pass h t p s = record s { kernel = sem_p h t p p s.kernel }

abbrev pub is_killed : ℕ → Procs → Bool
is_killed p s = ltb 0 (s.signals p).receive_kill

-- One round of the blocking loops, from their `P` on.
unfoldable pub wait_round : ℕ → ℕ → Option ℕ → ℕ → Procs → Waited
unfolding first_dead child_of_pid reap sem_p sem_v
wait_round h t none p s =
    let u = pass h t p s in
    let found : Waited = elim (first_dead u (u.nodes p).children) [
      | some c ↦ reaped p c u
      | none ↦ again u
    ] in
    if is_neg (u.kernel.value p)
    then sleeps u
    else if is_killed p u
    then returns (negsuc 0) none u
    else found
wait_round h t (some c) p s =
    let u = pass h t p s in
    if is_neg (u.kernel.value p)
    then sleeps u
    else if is_killed p u
    then returns (negsuc 0) none u
    else if dead_in u c
    then reaped p c u
    else again (record u { kernel = sem_v p u.kernel })

-- `sys_wait4` up to the end of its first round; a pid of `none` is -1, and the others below 0 are
-- those of no child. `nohang` says whether the options have WNOHANG.
unfoldable pub sys_wait4 : ℕ → ℕ → Bool → Option ℕ → ℕ → Procs → Waited
unfolding wait_nohang wait_round
sys_wait4 h t nohang pid p s =
    let blocking : Waited = elim pid [
      | none ↦ wait_round h t none p s
      | some i ↦ elim (child_of_pid s i (s.nodes p).children) [
        | some c ↦ wait_round h t (some c) p s
        | none ↦ returns (negsuc 0) none s
      ]
    ] in
    elim (s.nodes p).children [
      | [] ↦ returns (negsuc 0) none s
      | c ∷ cs ↦ if nohang then wait_nohang pid p s else blocking
    ]

-- `dfl_sigchld`, which the process `p` runs for a signal from the process with the pid `sender`.
unfoldable pub find_sender : Procs → ℕ → List ℕ → Option ℕ
find_sender s sender [] = none
find_sender s sender (c ∷ cs) =
    if dead_in s c && (s.nodes c).pid == sender then some c else find_sender s sender cs

unfoldable pub dfl_sigchld : ℕ → ℕ → Procs → Procs
unfolding find_sender reap
dfl_sigchld sender p s = elim (find_sender s sender (s.nodes p).children) [
  | some c ↦ reap p c s
  | none ↦ s
]
