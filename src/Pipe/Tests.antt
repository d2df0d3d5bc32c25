-- ===== src/Pipe/Tests.antt =====
-- A pipe with two bytes, one that wraps around, and a full one.
use os_risc_v.Prelude.{
  ℕ, zero, suc, ◌+◌, ◌%◌, ◌≡◌, refl, ap, true, false, some, List, [], ◌∷◌, map, arith, length, pos,
  negsuc,
}
use os_risc_v.Sched.Sem.{Kernel}
use os_risc_v.Sched.Sem.Tests.{one_waits}
use os_risc_v.Pipe.{Pipe, pipe_read, pipe_write}
use os_risc_v.Pipe.Buffer.{Holds}
use os_risc_v.Pipe.Queue.{IsQueue}
use os_risc_v.Pipe.Reads.{Meets, pipe_read-Meets}
use os_risc_v.Pipe.Writes.{pipe_write-IsQueue}
use os_risc_v.Pipe.Close.{close_all, left, end_of, close_all-last}

-- The byte at each index is the index modulo 256.
abbrev two_bytes : Pipe
two_bytes = record { buf = λ i. i % 256; r_pos = 1023; w_pos = 1; r_ref = 1; w_ref = 1 }

abbrev empty : Pipe
empty = record { buf = λ i. i % 256; r_pos = 7; w_pos = 7; r_ref = 1; w_ref = 1 }

abbrev two_passes : Kernel
two_passes = record { sched = one_waits.sched; value = λ a. pos 2 }

abbrev owing : Kernel
owing = record { sched = one_waits.sched; value = λ a. negsuc 0 }

two_bytes-IsQueue : IsQueue 100 0 two_bytes two_passes (255 ∷ 0 ∷ [])
two_bytes-IsQueue = record {
  start = omega arith;
  stop = refl;
  held = (refl, (refl, tt));
  passes = refl;
}

empty-IsQueue : IsQueue 100 1 empty owing []
empty-IsQueue = record { start = omega arith; stop = refl; held = tt; passes = refl }

pipe_read-Meets_example :
    Meets 100 3 (255 ∷ 0 ∷ []) 1 (pipe_read 0 9 2 100 (λ n. false) 3 two_bytes two_passes)
pipe_read-Meets_example =
    pipe_read-Meets 0 9 2 100 (λ n. false) (λ m. refl) 3 (255 ∷ 0 ∷ []) two_bytes two_passes
      two_bytes-IsQueue (omega arith)

pipe_write-IsQueue_example :
    let (n, q, u) = pipe_write 100 (65 ∷ 66 ∷ []) two_bytes two_passes in
    (n ≡ 2)
    × IsQueue 100 0 q u (255 ∷ 0 ∷ 65 ∷ 66 ∷ [])
    × (q.r_ref ≡ two_bytes.r_ref)
    × (q.w_ref ≡ two_bytes.w_ref)
pipe_write-IsQueue_example =
    pipe_write-IsQueue 100 0 (65 ∷ 66 ∷ []) (255 ∷ 0 ∷ []) two_bytes two_passes two_bytes-IsQueue
      (λ e. absurd (omega (arith, e))) (omega arith)

-- The bytes from `r` on.
abbrev bytes : (ℕ → ℕ) → ℕ → ℕ → List ℕ
bytes b r zero = []
bytes b r (suc n) = b r ∷ bytes b ((r + 1) % 1024) n

bytes-Holds : (b : ℕ → ℕ) (r n : ℕ) → Holds b r (bytes b r n)
bytes-Holds b r zero = tt
bytes-Holds b r (suc n) = (refl, bytes-Holds b ((r + 1) % 1024) n)

length-bytes : (b : ℕ → ℕ) (r n : ℕ) → length (bytes b r n) ≡ n
length-bytes b r zero = refl
length-bytes b r (suc n) = ap suc (length-bytes b ((r + 1) % 1024) n)

abbrev full : ℕ → Pipe
full writers = record { buf = λ i. 0; r_pos = 7; w_pos = 7; r_ref = 1; w_ref = writers }

abbrev zeros : ℕ → List ℕ
zeros n = bytes (λ i. 0) 8 n

abbrev all_passes : Kernel
all_passes = record { sched = one_waits.sched; value = λ a. pos 1024 }

full-IsQueue : (w n : ℕ) → n ≡ 1023 → IsQueue 100 0 (full w) all_passes (0 ∷ zeros n)
full-IsQueue w n e = record {
  start = omega arith;
  stop = omega (arith, e, length-bytes (λ i. 0) 8 n);
  held = (refl, bytes-Holds (λ i. 0) 8 n);
  passes = rw (length-bytes (λ i. 0) 8 n, e) (ground arith);
}

close_all-last_example :
    close_all (map end_of (true ∷ false ∷ [])) (some empty) ≡ ([], left (true ∷ false ∷ []) empty)
close_all-last_example =
    close_all-last (true ∷ false ∷ []) empty (omega arith) (omega arith) (omega arith)
