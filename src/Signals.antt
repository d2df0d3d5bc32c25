-- ===== src/Signals.antt =====
-- Signals, os/kernel/signal.c, and their delivery at the end of a trap, os/kernel/intr.c. The list of
-- pending signals is a sequence. What the default handlers do besides is named, not done: the
-- process dies, or the child that sent the signal is taken away.
pub mod Pending
pub mod Frames
mod Tests
use os_risc_v.Prelude.{
  ℕ, zero, suc, ◌+◌, ◌-◌, ◌%◌, ◌^◌, ◌&&◌, ◌||◌, Bool, true, false, not, Option, none, some, List,
  [], ◌∷◌, ◌++◌, ◌==◌, leb, if◌then◌else◌,
}

pub record Sigaction : Type 0 where
  pub sa_handler : ℕ
  pub sa_flags : ℕ
  pub sa_mask : ℕ

pub record Sigpending : Type 0 where
  pub signo : ℕ
  pub senderpid : ℕ

-- The registers of a trap: those that the code below names, and the others.
pub record TrapContext : Type 0 where
  pub sp : ℕ
  pub ra : ℕ
  pub sepc : ℕ
  pub a0 : ℕ
  pub others : List ℕ

-- `frames` is the memory of the user, where it holds a trap_context.
pub record Signals : Type 0 where
  pub sigactions : ℕ → Sigaction
  pub pendings : List Sigpending
  pub receive_kill : ℕ
  pub do_signal : Bool
  pub tcontext : TrapContext
  pub frames : ℕ → TrapContext

abbrev pub sigkill : ℕ
sigkill = 9

abbrev pub sigterm : ℕ
sigterm = 15

abbrev pub sigrtmin : ℕ
sigrtmin = 32

abbrev pub sig_dfl : ℕ
sig_dfl = 0

-- dfl_sig_handler after signal_init
pub data Default : Type 0 where
  default_signal dfl_sigkill dfl_sigterm dfl_sigchld : Default

abbrev pub dfl_sig_handler : ℕ → Default
dfl_sig_handler i =
    if i == 8
    then dfl_sigkill
    else if i == 14
    then dfl_sigterm
    else if i == 16
    then dfl_sigchld
    else if i == 9 || i == 11
    then dfl_sigkill
    else default_signal

abbrev pub no_action : Sigaction
no_action = record { sa_handler = sig_dfl; sa_flags = 0; sa_mask = 0 }

unfoldable pub init_proc_sigactions : Signals → Signals
init_proc_sigactions s = record s {
  sigactions = λ i. if leb sigrtmin i then s.sigactions i else no_action;
}

unfoldable pub copy_proc_sigactions : Signals → Signals → Signals
copy_proc_sigactions to from = record to {
  sigactions = λ i. if leb sigrtmin i then to.sigactions i else from.sigactions i;
}

abbrev pub is_deadly : ℕ → Bool
is_deadly signo = signo == sigkill || signo == sigterm

abbrev pub in_range : ℕ → Bool
in_range signo = leb 1 signo && leb signo sigrtmin

-- `mem` says whether kmalloc gives memory.
unfoldable pub send_signal : Bool → ℕ → ℕ → Signals → Signals
send_signal mem sender signo s =
    let p : Sigpending = record { signo = signo; senderpid = sender } in
    if in_range signo && mem
    then record s { pendings = if is_deadly signo then p ∷ s.pendings else s.pendings ++ p ∷ [] }
    else s

-- The part of `sys_kill` about the signal.
unfoldable pub kill : Bool → ℕ → ℕ → Signals → Signals
unfolding send_signal
kill mem sender signo s =
    let t = send_signal mem sender signo s in
    if is_deadly signo then record t { receive_kill = (t.receive_kill + 1) % 2 ^ 32 } else t

abbrev pub set_action : ℕ → Sigaction → (ℕ → Sigaction) → ℕ → Sigaction
set_action i x actions j = if j == i then x else actions j

abbrev pub act_on : ℕ → Option Sigaction → Signals → Signals
act_on i none s = s
act_on i (some x) s = record s { sigactions = set_action i x s.sigactions }

-- The result, what is written to `oldact`, and the state; `oldact` and `act` may be null.
unfoldable pub sys_rt_sigaction :
    ℕ → Option Sigaction → Bool → Signals → Bool × Option Sigaction × Signals
sys_rt_sigaction signo act old s =
    if in_range signo
    then (true, if old then some (s.sigactions (signo - 1)) else none, act_on (signo - 1) act s)
    else (false, none, s)

-- SIG_CODE_START
abbrev pub sig_code_start : ℕ
sig_code_start = 274877906944 - 4096

-- sizeof(struct trap_context)
abbrev pub frame_size : ℕ
frame_size = 296

abbrev pub set_frame : ℕ → TrapContext → (ℕ → TrapContext) → ℕ → TrapContext
set_frame a x frames b = if b == a then x else frames b

unfoldable pub make_sigframe : ℕ → ℕ → Signals → Signals
make_sigframe signo handler s =
    let sp = (s.tcontext.sp + 2 ^ 64 - frame_size) % 2 ^ 64 in
    record s {
      frames = set_frame sp s.tcontext s.frames;
      tcontext = record s.tcontext { sp = sp; ra = sig_code_start; sepc = handler; a0 = signo };
    }

unfoldable pub sys_rt_sigreturn : Signals → Signals
sys_rt_sigreturn s =
    let frame = s.frames s.tcontext.sp in
    if s.do_signal
    then record s {
      tcontext = record frame { sepc = (frame.sepc + 2 ^ 64 - 4) % 2 ^ 64 };
      do_signal = false;
    }
    else s

-- What comes of the handling of signals: the process goes on, with the senders of SIGCHLD that were
-- handled; it goes to a handler of its own; or it dies.
pub data Outcome : Type 0 where
  goes_on : Signals → Outcome
  caught : Signals → Outcome
  dies : Signals → Outcome

abbrev pub by_default : Default → Signals → Outcome
by_default default_signal s = goes_on s
by_default dfl_sigchld s = goes_on s
by_default dfl_sigkill s = dies s
by_default dfl_sigterm s = dies s

unfoldable pub signal_handler : Sigpending → Signals → Outcome
unfolding make_sigframe
signal_handler p s =
    let t = record s {
      receive_kill =
          if is_deadly p.signo then (s.receive_kill + 2 ^ 32 - 1) % 2 ^ 32 else s.receive_kill;
    } in
    let action = s.sigactions (p.signo - 1) in
    if action.sa_handler == sig_dfl
    then by_default (dfl_sig_handler (p.signo - 1)) t
    else caught (record (make_sigframe p.signo action.sa_handler t) { do_signal = true })

abbrev pub go_through : (Signals → Outcome) → Outcome → Outcome
go_through go (goes_on s) = go s
go_through go (caught s) = caught s
go_through go (dies s) = dies s

-- The loop at the end of a trap from user mode, over the pending signals.
unfoldable pub deliver : List Sigpending → Signals → Outcome
unfolding signal_handler
deliver [] s = goes_on s
deliver (p ∷ ps) s = go_through (deliver ps) (signal_handler p (record s { pendings = ps }))

-- The end of a trap: `busy` is `do_signal` as it was when the trap began.
unfoldable pub deliver_signals : Bool → Bool → Signals → Outcome
unfolding deliver
deliver_signals busy from_user s = if not busy && from_user then deliver s.pendings s else goes_on s
