-- ===== src/Procs/Pids.antt =====
-- The numbers of processes.
use os_risc_v.Prelude.{
  ℕ, zero, suc, ◌+◌, ◌≤◌, ◌<◌, ◌≡◌, refl, ap, subst, ◌∙◌, true, false, Option, none, some, ◌==◌,
  arith, Bool-cases, inl, inr,
}
use os_risc_v.Procs.{Slot, null, is_vacant, proc_n, reserve, pid_loop, get_pid, free_pid}

-- What `get_pid` may answer: no number below `n` is free, or the first that is, which it then takes.
abbrev pub Answer : ℕ → ℕ → (ℕ → Slot) → Option ℕ → Type 0
Answer i n pids none = (j : ℕ) → i ≤ j → j < i + n → is_vacant (pids j) ≡ false
Answer i n pids (some k) =
    (i ≤ k)
    × (k < i + n)
    × (is_vacant (pids k) ≡ true)
    × ((j : ℕ) → i ≤ j → j < k → is_vacant (pids j) ≡ false)

Answer-later :
    (i n : ℕ) (pids : ℕ → Slot) (o : Option ℕ)
    → is_vacant (pids i) ≡ false
    → Answer (i + 1) n pids o
    → Answer i (suc n) pids o
Answer-later i n pids none e a = λ j l h. elim (Bool-cases (j == i)) [
  | inl y ↦ ground (arith, y, e)
  | inr o ↦ a j (ground (arith, o, l)) (omega (arith, h))
]
Answer-later i n pids (some k) e (l, h, f, a) = (
  omega (arith, l),
  omega (arith, h),
  f,
  λ j u v. elim (Bool-cases (j == i)) [
    | inl y ↦ ground (arith, y, e)
    | inr o ↦ a j (ground (arith, o, u)) v
  ],
)

pid_loop-Answer : (n i : ℕ) (pids : ℕ → Slot) → Answer i n pids (pid_loop n i pids)
unfolding pid_loop
pid_loop-Answer zero i pids = λ j l h. absurd (omega (arith, l, h))
pid_loop-Answer (suc n) i pids = elim (Bool-cases (is_vacant (pids i))) [
  | inl y ↦ rw y (omega arith, omega arith, y, λ j l h. absurd (omega (arith, l, h)))
  | inr o ↦
      rw o (Answer-later i n pids (pid_loop n (i + 1) pids) o (pid_loop-Answer n (i + 1) pids))
]

null_of : (x : Slot) → is_vacant x ≡ true → x ≡ null
null_of null e = refl
null_of _ e = cc

reserve-taken :
    (k : ℕ) (pids : ℕ → Slot)
    → (is_vacant (reserve (some k) pids k) ≡ false)
      × ((j : ℕ) → (j == k) ≡ false → reserve (some k) pids j ≡ pids j)
reserve-taken k pids = (ground arith, λ j o. ground (arith, o))

free_pid-reserve :
    (k j : ℕ) (pids : ℕ → Slot)
    → 1 ≤ k
    → k < proc_n
    → pids k ≡ null
    → free_pid k (reserve (some k) pids) j ≡ pids j
unfolding free_pid
free_pid-reserve k j pids l h e = elim (Bool-cases (j == k)) [
  | inl y ↦ ground (arith, y, e, l, h)
  | inr o ↦ ground (arith, o, l, h)
]

-- `get_pid` answers with the smallest free number, which is below 100. That number is then not free,
-- and all others are as they were. It answers with -1 where none of the 100 is free, and then
-- changes nothing. Where `free_pid` gives the number back, if it is not 0, all numbers are as they
-- were before `get_pid`.
pub get_pid-Answer :
    (pids : ℕ → Slot)
    → Answer 0 proc_n pids (get_pid pids).0
      × ((get_pid pids).0 ≡ none → (get_pid pids).1 ≡ pids)
      × ((k : ℕ)
          → (get_pid pids).0 ≡ some k
          → (is_vacant ((get_pid pids).1 k) ≡ false)
            × ((j : ℕ) → (j == k) ≡ false → (get_pid pids).1 j ≡ pids j))
      × ((k : ℕ)
          → (get_pid pids).0 ≡ some k
          → 1 ≤ k
          → (j : ℕ) → free_pid k (get_pid pids).1 j ≡ pids j)
unfolding get_pid
get_pid-Answer pids =
    let a = pid_loop-Answer proc_n 0 pids in
    (
      a,
      λ e. ap (λ o. reserve o pids) e,
      λ k e. rw e (reserve-taken k pids),
      λ k e l j.
          let b : Answer 0 proc_n pids (some k) = subst (Answer 0 proc_n pids) e a in
          ap (λ o. free_pid k (reserve o pids) j) e
          ∙ free_pid-reserve k j pids l (omega (arith, b.1)) (null_of (pids k) b.2),
    )
