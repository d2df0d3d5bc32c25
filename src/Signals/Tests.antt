-- ===== src/Signals/Tests.antt =====
-- A process with a SIGCHLD and a SIGTERM.
use os_risc_v.Prelude.{
  ℕ, Bool, ◌+◌, ◌-◌, ◌%◌, ◌^◌, ◌≡◌, refl, true, false, List, [], ◌∷◌, ◌==◌, if◌then◌else◌,
}
use os_risc_v.Signals.{
  deliver_signals, Signals, Sigpending, TrapContext, no_action, kill, make_sigframe,
  sys_rt_sigreturn,
}
use os_risc_v.Signals.Pending.{IsPending, kill-deliver_signals, Ends}
use os_risc_v.Signals.Frames.{sys_rt_sigreturn-make_sigframe}

abbrev registers : TrapContext
registers = record { sp = 8192; ra = 5; sepc = 4096; a0 = 0; others = 1 ∷ [] }

abbrev two : List Sigpending
two = record { signo = 15; senderpid = 2 } ∷ record { signo = 17; senderpid = 3 } ∷ []

abbrev process : Signals
process = record {
  sigactions = λ i. no_action;
  pendings = two;
  receive_kill = 1;
  do_signal = false;
  tcontext = registers;
  frames = λ a. registers;
}

process-IsPending : IsPending process
process-IsPending = record { order = (λ e. refl, (λ e. refl, tt)); counted = refl }

kill-deliver_signals_example :
    ((sender signo : ℕ) → IsPending (kill true sender signo process))
    × ((busy from_user : Bool) → Ends (deliver_signals busy from_user process))
kill-deliver_signals_example = kill-deliver_signals process process-IsPending

-- In the handler, with its own program counter.
abbrev handling : Signals
handling = record process {
  do_signal = true;
  tcontext = record registers { sp = 7896; sepc = 77 };
  frames = λ a. if a == 7896 then registers else record registers { a0 = 1 };
}

sp_there : handling.tcontext.sp ≡ (make_sigframe 10 500 process).tcontext.sp
unfolding make_sigframe
sp_there = refl

frame_there :
    handling.frames (make_sigframe 10 500 process).tcontext.sp
    ≡ (make_sigframe 10 500 process).frames (make_sigframe 10 500 process).tcontext.sp
unfolding make_sigframe
frame_there = refl

sys_rt_sigreturn-make_sigframe_example :
    let v = sys_rt_sigreturn handling in
    (v.tcontext ≡ record registers { sepc = (4096 + 2 ^ 64 - 4) % 2 ^ 64 }) × (v.do_signal ≡ false)
sys_rt_sigreturn-make_sigframe_example =
    sys_rt_sigreturn-make_sigframe 10 500 process handling sp_there frame_there refl
