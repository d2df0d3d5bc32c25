-- ===== src/Signals/Frames.antt =====
-- The frame of a signal handler, os/kernel/signal.c.
use os_risc_v.Prelude.{ℕ, ◌+◌, ◌-◌, ◌%◌, ◌^◌, ◌≡◌, refl, ap, ◌∙◌, true, false, arith}
use os_risc_v.Signals.{Signals, TrapContext, make_sigframe, sys_rt_sigreturn, set_frame, frame_size}

set_frame-same : (a : ℕ) (x : TrapContext) (frames : ℕ → TrapContext) → set_frame a x frames a ≡ x
set_frame-same a x frames = ground arith

-- A handler that comes back with the stack pointer it got and its frame as it was returns the process
-- to the registers it had when the signal came, with a program counter that is 4 less, and ends the
-- handling.
pub sys_rt_sigreturn-make_sigframe :
    (signo handler : ℕ) (s t : Signals)
    → let u = make_sigframe signo handler s in
      t.tcontext.sp ≡ u.tcontext.sp
      → t.frames u.tcontext.sp ≡ u.frames u.tcontext.sp
      → t.do_signal ≡ true
      → let v = sys_rt_sigreturn t in
        (v.tcontext ≡ record s.tcontext { sepc = (s.tcontext.sepc + 2 ^ 64 - 4) % 2 ^ 64 })
        × (v.do_signal ≡ false)
unfolding make_sigframe sys_rt_sigreturn
sys_rt_sigreturn-make_sigframe signo handler s t e f d =
    let sp = (s.tcontext.sp + 2 ^ 64 - frame_size) % 2 ^ 64 in
    let g : t.frames t.tcontext.sp ≡ s.tcontext =
      ap t.frames e ∙ f ∙ set_frame-same sp s.tcontext s.frames in
    rw d (ap (λ (x : TrapContext). record x { sepc = (x.sepc + 2 ^ 64 - 4) % 2 ^ 64 }) g, refl)
