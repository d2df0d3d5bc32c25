-- ===== src/Sched/Waiters.antt =====
-- The processes on the sleep list that wait for one semaphore, under the writes of os/kernel/sched.c.
use os_risc_v.Prelude.{
  ℕ, ◌≡◌, refl, true, false, Option, none, some, Bool-cases, inl, inr, List, [], ◌∷◌, ◌++◌, ◌==◌,
  arith, if◌then◌else◌, has, has-append, Distinct,
}
use os_risc_v.Sched.{Proc, set_proc, is_for, first_for, unlink}
use os_risc_v.Sched.Counts.{first_for-has}

abbrev pub waiters : ℕ → (ℕ → Proc) → List ℕ → List ℕ
waiters sem procs [] = []
waiters sem procs (p ∷ ps) =
    let rest = waiters sem procs ps in if is_for sem (procs p).waits_for then p ∷ rest else rest

abbrev pub tail : List ℕ → List ℕ
tail [] = []
tail (x ∷ xs) = xs

pub waiters-append :
    (sem : ℕ) (procs : ℕ → Proc) (xs ys : List ℕ)
    → waiters sem procs (xs ++ ys) ≡ waiters sem procs xs ++ waiters sem procs ys
waiters-append sem procs [] ys = refl
waiters-append sem procs (x ∷ xs) ys = ground (arith, waiters-append sem procs xs ys)

pub waiters-set :
    (sem p : ℕ) (c : Proc) (procs : ℕ → Proc) (xs : List ℕ)
    → has p xs ≡ false
    → waiters sem (set_proc p c procs) xs ≡ waiters sem procs xs
waiters-set sem p c procs [] e = refl
waiters-set sem p c procs (x ∷ xs) e = ground (arith, waiters-set sem p c procs xs)

pub first_for-waiters :
    (sem : ℕ) (procs : ℕ → Proc) (xs : List ℕ)
    → first_for sem procs xs ≡ (elim (waiters sem procs xs) [ [] ↦ none | p ∷ ps ↦ some p ])
unfolding first_for
first_for-waiters sem procs [] = refl
first_for-waiters sem procs (x ∷ xs) = ground (arith, first_for-waiters sem procs xs)

pub has-unlink : (q p : ℕ) (xs : List ℕ) → has q xs ≡ false → has q (unlink p xs) ≡ false
unfolding unlink
has-unlink q p [] e = refl
has-unlink q p (x ∷ xs) e = ground (arith, has-unlink q p xs)

pub Distinct-unlink : (p : ℕ) (xs : List ℕ) → Distinct xs → Distinct (unlink p xs)
unfolding unlink
Distinct-unlink p [] d = tt
Distinct-unlink p (x ∷ xs) d = ground (arith, Distinct-unlink p xs, has-unlink x p xs)

pub Distinct-add : (p : ℕ) (xs : List ℕ) → Distinct xs → has p xs ≡ false → Distinct (xs ++ p ∷ [])
Distinct-add p [] d e = (refl, tt)
Distinct-add p (x ∷ xs) d e = ground (arith, Distinct-add p xs, has-append x xs (p ∷ []))

is_for-one : (sem a : ℕ) (o : Option ℕ) → is_for sem o ≡ true → is_for a o ≡ (a == sem)
is_for-one sem a none e = absurd (cc)
is_for-one sem a (some b) e = ground arith

-- The first process that waits for the semaphore is taken off: it is the first of its waiters, and
-- those of the others stay.
pub waiters-unlink :
    (sem a p : ℕ) (c : Proc) (procs : ℕ → Proc) (xs : List ℕ)
    → Distinct xs
    → first_for sem procs xs ≡ some p
    → waiters a (set_proc p c procs) (unlink p xs)
      ≡ (if a == sem then tail (waiters sem procs xs) else waiters a procs xs)
unfolding unlink first_for
waiters-unlink sem a p c procs [] d e = absurd (cc)
waiters-unlink sem a p c procs (x ∷ xs) d e = elim (Bool-cases (is_for sem (procs x).waits_for)) [
  | inl w ↦
      let i : p ≡ x = ground (arith, w, e) in
      ground (arith, w, i, is_for-one sem a (procs x).waits_for w, waiters-set a x c procs xs d.0)
  | inr w ↦
      let m = first_for-has sem procs xs p (ground (arith, w, e)) in
      ground (arith, w, d, m, waiters-unlink sem a p c procs xs d.1)
]
