-- ===== src/Procs/Wait.antt =====
-- A child ends and its parent waits for it.
use os_risc_v.Prelude.{
  ℕ, suc, ◌*◌, ◌%◌, ◌^◌, ◌≡◌, refl, ap, subst, ◌∙◌, Bool, true, false, none, some, List, [], ◌∷◌,
  ◌++◌, ◌==◌, ◌||◌, arith, Bool-cases, inl, inr, has, has-append, pos, negsuc,
}
use os_risc_v.Sched.{unlink}
use os_risc_v.Sched.Sem.{Kernel, sem_p, sem_v}
use os_risc_v.Signals.{Signals, send_signal}
use os_risc_v.Procs.{
  Procs, dead_in, adopt, adopt_one, sigchld, depart, sys_exit, free_process_struct,
}
use os_risc_v.Procs.Reap.{is_killed, first_dead, reap, reaped, pass, returns, wait_round, sys_wait4}
use os_risc_v.Procs.Exit.{
  alive, marked, after_exit, Exited, adopt-Adopted, sys_exit-some, sys_exit-Exited,
}

-- The value of a semaphore at which nobody sleeps.
module _ (n p : ℕ) where
  -- `V` wakes nobody, and `P` after it does not sleep.
  sem_v-idle :
      (k : Kernel)
      → k.value p ≡ pos n
      → ((sem_v p k).value p ≡ pos (suc n)) × ((sem_v p k).sched ≡ k.sched)
  unfolding sem_v
  sem_v-idle k e = (ground (arith, e), ground (arith, e))

  sem_p-idle :
      (h t : ℕ) (k : Kernel)
      → k.value p ≡ pos (suc n)
      → ((sem_p h t p p k).value p ≡ pos n) × ((sem_p h t p p k).sched ≡ k.sched)
  unfolding sem_p
  sem_p-idle h t k e = (ground (arith, e), ground (arith, e))

first_dead-only :
    (s : Procs) (c : ℕ) (xs ys : List ℕ)
    → has c xs ≡ true
    → dead_in s c ≡ true
    → ((r : ℕ) → has r xs ≡ true → (r == c) ≡ false → dead_in s r ≡ false)
    → first_dead s (xs ++ ys) ≡ some c
unfolding first_dead
first_dead-only s c [] ys h d o = absurd (cc)
first_dead-only s c (x ∷ xs) ys h d o = elim (Bool-cases (x == c)) [
  | inl y ↦ ground (arith, y, d)
  | inr n ↦
      let ih =
        first_dead-only s c xs ys (ground (arith, h, n)) d (λ r i e. o r (ground (arith, i)) e) in
      ground (arith, n, o x, ih)
]

-- What is dead after `sys_exit`, where nobody sleeps on the semaphore of the parent.
exit-dead :
    (mem : Bool) (h clock code c p n r : ℕ) (s : Procs)
    → s.kernel.value p ≡ pos n
    → (dead_in (after_exit mem h clock code c p s) r ≡ ((r == c) || dead_in s r))
      × ((after_exit mem h clock code c p s).kernel.value p ≡ pos (suc n))
unfolding after_exit depart
exit-dead mem h clock code c p n r s e =
    let m : Procs = marked c code s in
    let u : Procs = adopt p (m.nodes c).children m in
    let a = adopt-Adopted p (m.nodes c).children m in
    let v = sem_v-idle n p u.kernel (ap (λ k. k.value p) a.kernel ∙ e) in
    (
      ground (
        arith,
        ap (λ x. x.procs r) v.1,
        ap (λ x. x.procs c) v.1,
        ap (λ k. k.sched.procs r) a.kernel,
        ap (λ k. k.sched.procs c) a.kernel,
      ),
      v.0,
    )

first_dead-sched :
    (s t : Procs) (xs : List ℕ)
    → t.kernel.sched ≡ s.kernel.sched
    → first_dead t xs ≡ first_dead s xs
unfolding first_dead
first_dead-sched s t [] e = refl
first_dead-sched s t (x ∷ xs) e = ground (arith, e, first_dead-sched s t xs e)

round-first :
    (h t c p n : ℕ) (s : Procs)
    → s.kernel.value p ≡ pos (suc n)
    → is_killed p s ≡ false
    → first_dead s (s.nodes p).children ≡ some c
    → wait_round h t none p s ≡ reaped p c (pass h t p s)
unfolding wait_round
round-first h t c p n s v z f =
    let k = sem_p-idle n p h t s.kernel v in
    let f' = first_dead-sched s (pass h t p s) (s.nodes p).children k.1 ∙ f in
    ground (arith, k.0, z, f')

some_child {ℓ} :
    {A : Type ℓ} (c : ℕ) (xs : List ℕ) (a b : A)
    → has c xs ≡ true
    → (let r : A = elim xs [ [] ↦ a | x ∷ r ↦ b ] in r) ≡ b
some_child c [] a b h = absurd (cc)
some_child c (x ∷ xs) a b h = refl

wait-first :
    (h t c p n : ℕ) (s : Procs)
    → has c (s.nodes p).children ≡ true
    → s.kernel.value p ≡ pos (suc n)
    → is_killed p s ≡ false
    → first_dead s (s.nodes p).children ≡ some c
    → sys_wait4 h t false none p s ≡ reaped p c (pass h t p s)
unfolding sys_wait4
wait-first h t c p n s i v z f =
    some_child c (s.nodes p).children (returns (negsuc 0) none s) (wait_round h t none p s) i
    ∙ round-first h t c p n s v z f

unlink-append : (c : ℕ) (xs ys : List ℕ) → has c xs ≡ true → unlink c (xs ++ ys) ≡ unlink c xs ++ ys
unfolding unlink
unlink-append c [] ys h = absurd (cc)
unlink-append c (x ∷ xs) ys h = ground (arith, h, unlink-append c xs ys)

reap-takes :
    (p c : ℕ) (s : Procs)
    → (((reap p c s).nodes p).children ≡ unlink c (s.nodes p).children)
      × ((reap p c s).freed c ≡ true)
      × ((reap p c s).kernel ≡ s.kernel)
unfolding reap free_process_struct
reap-takes p c s = (ground arith, ground arith, refl)

send_signal-kills :
    (mem : Bool) (sender signo : ℕ) (g : Signals)
    → (send_signal mem sender signo g).receive_kill ≡ g.receive_kill
unfolding send_signal
send_signal-kills mem sender signo g = ground arith

adopt-signals : (q : ℕ) (cs : List ℕ) (s : Procs) → (adopt q cs s).signals ≡ s.signals
unfolding adopt adopt_one free_process_struct
adopt-signals q [] s = refl
adopt-signals q (c ∷ cs) s = elim (Bool-cases (dead_in s c)) [
  | inl e ↦ adopt-signals q cs (adopt_one q c s) ∙ rw e refl
  | inr e ↦ adopt-signals q cs (adopt_one q c s) ∙ rw e refl
]

exit-live :
    (mem : Bool) (h t code c p : ℕ) (s : Procs)
    → (s.signals p).receive_kill ≡ 0
    → is_killed p (after_exit mem h t code c p s) ≡ false
unfolding after_exit depart
exit-live mem h t code c p s z =
    let m : Procs = marked c code s in
    let u : Procs = adopt p (m.nodes c).children m in
    let e = ap (λ g. (g p).receive_kill) (adopt-signals p (m.nodes c).children m) in
    ground (arith, z, e, send_signal-kills mem (u.nodes c).pid sigchld (u.signals p))

-- A process `c`, which is not asleep and no child of its own, ends, and then its parent `p`, whose
-- sleep_lock is not negative and which has not been killed, calls `sys_wait4` for any child, without
-- WNOHANG: where no other of its children was dead, the call does not sleep and returns the pid of `c` with its code, a byte, in the second byte of the status. `c` is then
-- no child of `p` any more, where it was one once, and is freed; what children it had that live are
-- children of `p`, and sleep_lock has as many passes as before.
pub sys_wait4-sys_exit :
    (mem : Bool) (h h' clock clock' code c p n : ℕ) (s : Procs)
    → (s.nodes c).parent ≡ some p
    → has c (s.nodes c).children ≡ false
    → has c s.kernel.sched.sleep_list ≡ false
    → has c (s.nodes p).children ≡ true
    → ((r : ℕ) → has r (s.nodes p).children ≡ true → (r == c) ≡ false → dead_in s r ≡ false)
    → s.kernel.value p ≡ pos n
    → (s.signals p).receive_kill ≡ 0
    → (t : Procs) × (u : Procs) × (sys_exit mem h clock code c s ≡ some t)
      × (sys_wait4 h' clock' false none p t
          ≡ returns (pos (s.nodes c).pid) (some (code % 2 ^ 8 * 2 ^ 8)) u)
      × ((u.nodes p).children ≡ unlink c (s.nodes p).children ++ alive s (s.nodes c).children)
      × (u.freed c ≡ true)
      × (u.kernel.value p ≡ pos n)
sys_wait4-sys_exit mem h h' clock clock' code c p n s e o w i only v live =
    let t : Procs = after_exit mem h clock code c p s in
    let (x, f, g) = sys_exit-Exited mem h clock code c p s e o w in
    let r = sys_exit-some mem h clock code c p s e in
    let z : x ≡ t = ground (arith, f, r) in
    let q : Exited c p code s t = subst (Exited c p code s) z g in
    let d = λ (y : ℕ). (exit-dead mem h clock code c p n y s v).0 in
    let value = (exit-dead mem h clock code c p n c s v).1 in
    let found =
      first_dead-only t c (s.nodes p).children (alive s (s.nodes c).children) i
        (ground (arith, d c)) (λ y b l. ground (arith, d y, l, only y b l)) in
    let taken = reap-takes p c (pass h' clock' p t) in
    let has_c : has c (t.nodes p).children ≡ true =
      ap (has c) q.taken
      ∙ has-append c (s.nodes p).children (alive s (s.nodes c).children)
      ∙ rw i refl in
    (
      t,
      reap p c (pass h' clock' p t),
      r,
      wait-first h' clock' c p n t has_c value (exit-live mem h clock code c p s live)
            (ap (first_dead t) q.taken ∙ found)
          ∙ rw (q.pid c, q.code) refl,
      taken.0
          ∙ ap (unlink c) q.taken
          ∙ unlink-append c (s.nodes p).children (alive s (s.nodes c).children) i,
      taken.1,
      ap (λ k. k.value p) taken.2 ∙ (sem_p-idle n p h' clock' t.kernel value).0,
    )
