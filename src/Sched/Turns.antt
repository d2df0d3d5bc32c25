-- ===== src/Sched/Turns.antt =====
-- How long a ready process waits for its turn, os/kernel/sched.c.
use os_risc_v.Prelude.{
  ℕ, zero, suc, ◌+◌, ◌≤◌, ◌≡◌, ◌≢◌, refl, true, Option, none, some, List, [], ◌∷◌, ◌++◌, ◌==◌,
  arith, if◌then◌else◌, has, has-append, Bool-cases, ◌⊎◌, inl, inr, ◌*◌,
}
use os_risc_v.Sched.{Sched, unlink, choose, dispatch, schedule, yields}

-- A round of the scheduler on hart `h` and the yield of the process that it starts.
abbrev leave : ℕ → ℕ → Option ℕ → Sched → Sched
leave h t none s = s
leave h t (some p) s = yields h t p s

abbrev pub turn : ℕ → ℕ → ℕ → Sched → Sched
turn h t t' s = let u = schedule h t s in leave h t' (u.cur_proc h) u

-- The n-th round reads the clock at `clock (2 * n)` and `clock (2 * n + 1)`.
abbrev pub turns : ℕ → ℕ → (ℕ → ℕ) → Sched → Sched
turns zero h clock s = s
turns (suc n) h clock s = turns n h (λ k. clock (k + 2)) (turn h (clock 0) (clock 1) s)

-- The entries of the list before the process.
abbrev pub before : ℕ → List ℕ → ℕ
before q [] = 0
before q (x ∷ xs) = let rest = before q xs in if q == x then 0 else rest + 1

before-append : (q : ℕ) (xs ys : List ℕ) → has q xs ≡ true → before q (xs ++ ys) ≡ before q xs
before-append q [] ys e = absurd (cc)
before-append q (x ∷ xs) ys e = ground (arith, before-append q xs ys)

has-left : (q c : ℕ) (xs : List ℕ) → has q xs ≡ true → has q (xs ++ c ∷ []) ≡ true
has-left q c xs e = rw (has-append q xs (c ∷ []), e) refl

dispatch-turn :
    (h t t' p : ℕ) (ps : List ℕ) (s : Sched)
    → let c = (choose t p ps).0 in
      let u = dispatch h t (p ∷ ps) s in
      (u.cur_proc h ≡ some c)
      × ((leave h t' (u.cur_proc h) u).ready_list ≡ unlink c (p ∷ ps) ++ c ∷ [])
unfolding dispatch yields
dispatch-turn h t t' p ps s = ground arith

-- A process that is not chosen comes one entry nearer to the head, also where process 0 stays there.
before-choose :
    (t q p : ℕ) (ps : List ℕ)
    → has q (p ∷ ps) ≡ true
    → q ≢ 0
    → q ≢ (choose t p ps).0
    → let c = (choose t p ps).0 in
      (has q (unlink c (p ∷ ps)) ≡ true) × (before q (unlink c (p ∷ ps)) + 1 ≡ before q (p ∷ ps))
unfolding choose unlink
before-choose t q p [] e n d = ground arith
before-choose t q p (p' ∷ ps) e n d = ground arith

before-turn :
    (h t t' q : ℕ) (qs : List ℕ) (s : Sched)
    → s.ready_list ≡ qs
    → has q qs ≡ true
    → q ≢ 0
    → ((schedule h t s).cur_proc h ≡ some q)
      ⊎ ((has q (turn h t t' s).ready_list ≡ true)
          × (before q (turn h t t' s).ready_list + 1 ≡ before q qs))
unfolding schedule
before-turn h t t' q [] s r e n = absurd (cc)
before-turn h t t' q (p ∷ ps) s r e n =
    let c = (choose t p ps).0 in
    let (runs, left) = dispatch-turn h t t' p ps s in
    elim (Bool-cases (q == c)) [
      | inl b ↦ let i : q ≡ c = ground (arith, b) in inl (rw r (rw i runs))
      | inr b ↦
          let d : q ≢ c = ground (arith, b) in
          let (stays, nearer) = before-choose t q p ps e n d in
          let nearer' = before-append q (unlink c (p ∷ ps)) (c ∷ []) stays in
          inr (rw r (rw left (has-left q c _ stays)), rw r (rw (left, nearer') nearer))
    ]

-- Where the processes that the scheduler of a hart starts yield one after the other, a ready process
-- other than process 0 runs after at most as many turns as there were processes before it.
pub runs-turns :
    (k h q : ℕ) (clock : ℕ → ℕ) (s : Sched)
    → has q s.ready_list ≡ true
    → q ≢ 0
    → before q s.ready_list ≤ k
    → (n : ℕ) × (n ≤ k) × ((schedule h (clock (2 * n)) (turns n h clock s)).cur_proc h ≡ some q)
runs-turns zero h q clock s e d l =
    elim (before-turn h (clock 0) (clock 1) q s.ready_list s refl e d) [
      | inl r ↦ (0, omega arith, r)
      | inr (e', l') ↦ absurd (omega (arith, l, l'))
    ]
runs-turns (suc k) h q clock s e d l =
    elim (before-turn h (clock 0) (clock 1) q s.ready_list s refl e d) [
      | inl r ↦ (0, omega arith, r)
      | inr (e', l') ↦
          let (n, b, r) =
            runs-turns k h q (λ i. clock (i + 2)) (turn h (clock 0) (clock 1) s) e' d
              (omega (arith, l, l')) in
          let i : 2 * suc n ≡ 2 * n + 2 = omega arith in (suc n, omega (arith, b), rw i r)
    ]
