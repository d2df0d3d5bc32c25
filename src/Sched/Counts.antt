-- ===== src/Sched/Counts.antt =====
-- The entries of a process in a list and the harts that run it, under the writes of
-- os/kernel/sched.c and timer.c.
use os_risc_v.Prelude.{
  ℕ, zero, suc, ◌+◌, ◌≤◌, ◌<◌, ◌≡◌, refl, true, Option, none, some, List, [], ◌∷◌, ◌++◌, ◌==◌,
  arith, if◌then◌else◌, has,
}
use os_risc_v.Sched.{Proc, set_proc, set_cur, unlink, choose, first_for, expire}

abbrev pub count : ℕ → List ℕ → ℕ
count p [] = 0
count p (q ∷ qs) = (if p == q then 1 else 0) + count p qs

pub count-append : (p : ℕ) (xs ys : List ℕ) → count p (xs ++ ys) ≡ count p xs + count p ys
count-append p [] ys = omega arith
count-append p (x ∷ xs) ys = omega (arith, count-append p xs ys)

abbrev pub runs : ℕ → Option ℕ → ℕ
runs p none = 0
runs p (some q) = if p == q then 1 else 0

abbrev pub count_cur : ℕ → ℕ → (ℕ → Option ℕ) → ℕ
count_cur zero p cur = 0
count_cur (suc k) p cur = runs p (cur k) + count_cur k p cur

count_cur-out :
    (k h p : ℕ) (o : Option ℕ) (cur : ℕ → Option ℕ)
    → k ≤ h
    → count_cur k p (set_cur h o cur) ≡ count_cur k p cur
count_cur-out zero h p o cur l = refl
count_cur-out (suc k) h p o cur l = ground (arith, count_cur-out k h p o cur)

pub count_cur-set :
    (k h p : ℕ) (o : Option ℕ) (cur : ℕ → Option ℕ)
    → h < k
    → count_cur k p (set_cur h o cur) + runs p (cur h) ≡ count_cur k p cur + runs p o
count_cur-set zero h p o cur l = elim l [ ]
count_cur-set (suc k) h p o cur l =
    ground (arith, count_cur-set k h p o cur, count_cur-out k h p o cur)

pub count-unlink :
    (p q : ℕ) (xs : List ℕ)
    → has q xs ≡ true
    → count p (unlink q xs) + (if p == q then 1 else 0) ≡ count p xs
unfolding unlink
count-unlink p q [] h = absurd (cc)
count-unlink p q (x ∷ xs) h = ground (arith, count-unlink p q xs)

pub first_for-has :
    (sem : ℕ) (procs : ℕ → Proc) (ps : List ℕ) (p : ℕ)
    → first_for sem procs ps ≡ some p
    → has p ps ≡ true
unfolding first_for
first_for-has sem procs [] p e = absurd (cc)
first_for-has sem procs (q ∷ ps) p e = ground (arith, first_for-has sem procs ps p)

pub choose-has : (t p : ℕ) (ps : List ℕ) → has (choose t p ps).0 (p ∷ ps) ≡ true
unfolding choose
choose-has t p [] = ground arith
choose-has t p (q ∷ qs) = ground arith

pub count-expire :
    (t p : ℕ) (procs : ℕ → Proc) (ws queue : List ℕ)
    → let r = expire t procs ws queue in count p r.1 + count p r.2 ≡ count p ws + count p queue
unfolding expire
count-expire t p procs [] queue = omega arith
count-expire t p procs (w ∷ ws) queue =
    let d = set_proc w (record (procs w) { t_wait = 0 }) procs in
    ground (
      arith,
      count-append p queue (w ∷ []),
      count-expire t p d ws (queue ++ w ∷ []),
      count-expire t p procs ws queue,
    )
