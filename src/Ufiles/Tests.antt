-- ===== src/Ufiles/Tests.antt =====
-- A process with the standard files, a file and the last end of a pipe.
use os_risc_v.Prelude.{
  ℕ, ◌+◌, ◌≡◌, refl, Bool, true, none, some, List, [], ◌∷◌, arith, pos, ◌==◌, if◌then◌else◌,
  Bool-cases, inl, inr,
}
use os_risc_v.Pipe.{Pipe}
use os_risc_v.Pipe.Close.{stdin, stdout, pipein, file}
use os_risc_v.Ufiles.{Ufile, ufd2ufile, Calls, State, sys_close, sys_dup, sys_pipe2}
use os_risc_v.Ufiles.Table.{Rises}
use os_risc_v.Ufiles.Refs.{IsReferred, Keeps}
use os_risc_v.Ufiles.Close.{sys_close-IsReferred}
use os_risc_v.Ufiles.Dup.{sys_dup-IsReferred}
use os_risc_v.Ufiles.Pipes.{sys_pipe2-IsReferred}

-- The descriptors 0, 1, 3 and 5; the last one reads from the pipe at 900.
abbrev rest : List Ufile
rest =
    record { type = stdout; ufd = 1; private = 1 }
    ∷ record { type = file; ufd = 3; private = 4 }
    ∷ record { type = pipein; ufd = 5; private = 900 }
    ∷ []

abbrev first : Ufile
first = record { type = stdin; ufd = 0; private = 0 }

abbrev last_end : Pipe
last_end = record { buf = λ i. 0; r_pos = 0; w_pos = 0; r_ref = 1; w_ref = 0 }

-- The world counts the calls.
abbrev calls : Calls ℕ
calls = record {
  vfs_close = λ n w. (true, w + 1);
  vfs_closedir = λ n w. (true, w + 1);
  reopen = λ n w. (some (n + 1), w + 1);
  reopen_dir = λ n w. (none, w + 1);
  open_std = λ t w. (some 7, w + 1);
}

abbrev process : State ℕ
process = record {
  files = first ∷ rest;
  pipes = λ a. if a == 900 then some last_end else none;
  world = 0;
}

abbrev nobody : Bool → ℕ → ℕ
nobody r a = 0

rises : Rises 0 (first ∷ rest)
rises = (omega arith, (omega arith, (omega arith, (omega arith, tt))))

process-IsReferred : IsReferred nobody process
process-IsReferred = record {
  rises = rises;
  counts = λ a. elim (Bool-cases (a == 900)) [
    | inl e ↦ rw e (ground (arith, e))
    | inr e ↦ rw e (ground (arith, e))
  ];
}

missing : ufd2ufile 4 process.files ≡ none
unfolding ufd2ufile
missing = refl

there : ufd2ufile 5 process.files ≡ some (record { type = pipein; ufd = 5; private = 900 })
unfolding ufd2ufile
there = refl

sys_close-IsReferred_example : Keeps nobody (sys_close calls (pos 5) process)
sys_close-IsReferred_example = sys_close-IsReferred nobody process process-IsReferred calls (pos 5)

sys_dup-IsReferred_example : Keeps nobody (sys_dup calls true (pos 5) process)
sys_dup-IsReferred_example = sys_dup-IsReferred nobody process process-IsReferred calls true (pos 5)

sys_pipe2-IsReferred_example : Keeps nobody (sys_pipe2 true true (some 800) (λ i. 0) process)
sys_pipe2-IsReferred_example =
    sys_pipe2-IsReferred nobody process process-IsReferred true true 800 (λ i. 0) refl
