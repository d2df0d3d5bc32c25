-- ===== src/Procs/Exit.antt =====
-- The end of a process, and what becomes of its children.
use os_risc_v.Prelude.{
  ℕ, ◌%◌, ◌^◌, ◌≡◌, ◌≢◌, refl, sym, ap, subst, ◌∙◌, Bool, true, false, Option, none, some, List, [],
  ◌∷◌, ◌++◌, ◌&&◌, ◌||◌, if◌then◌else◌, arith, Option-cases, inl, inr, has, append_assoc,
  append-nil,
}
use os_risc_v.Sched.{Sched, Proc, dead, first_for, wake, wakeup}
use os_risc_v.Sched.Sem.{Kernel, sem_v}
use os_risc_v.Procs.{
  Procs, dead_in, adopt_one, adopt, sys_exit, set_status, depart, free_process_struct, set_node,
}

-- The living of a list of processes.
abbrev pub alive : Procs → List ℕ → List ℕ
alive s [] = []
alive s (c ∷ cs) = if dead_in s c then alive s cs else c ∷ alive s cs

-- What the loop over the children `cs` leaves, for the process `q` that takes them.
pub record Adopted (q : ℕ) (cs : List ℕ) (s t : Procs) : Type 0 where
  pub taken : (t.nodes q).children ≡ (s.nodes q).children ++ alive s cs
  pub others : (r : ℕ) → r ≢ q → (t.nodes r).children ≡ (s.nodes r).children
  pub parents : (r : ℕ) → (t.nodes r).parent ≡ (if has r cs then none else (s.nodes r).parent)
  pub freed : (r : ℕ) → t.freed r ≡ ((has r cs && dead_in s r) || s.freed r)
  pub pid : (r : ℕ) → (t.nodes r).pid ≡ (s.nodes r).pid
  pub code : (r : ℕ) → (t.nodes r).code ≡ (s.nodes r).code
  pub kernel : t.kernel ≡ s.kernel
  pub dead_list : t.dead_list ≡ s.dead_list

alive-kernel : (cs : List ℕ) (s t : Procs) → t.kernel ≡ s.kernel → alive t cs ≡ alive s cs
alive-kernel [] s t e = refl
alive-kernel (c ∷ cs) s t e = ground (arith, e, alive-kernel cs s t e)

dead_in-kernel : (r : ℕ) (s t : Procs) → t.kernel ≡ s.kernel → dead_in t r ≡ dead_in s r
dead_in-kernel r s t e = ground (arith, e)

adopt_one-Adopted : (q c : ℕ) (s : Procs) → Adopted q (c ∷ []) s (adopt_one q c s)
unfolding adopt_one free_process_struct
adopt_one-Adopted q c s = record {
  taken = ground (arith, append-nil (s.nodes q).children);
  others = λ r d. ground (arith, d);
  parents = λ r. ground arith;
  freed = λ r. ground arith;
  pid = λ r. ground arith;
  code = λ r. ground arith;
  kernel = ground arith;
  dead_list = ground arith;
}

pub adopt-Adopted : (q : ℕ) (cs : List ℕ) (s : Procs) → Adopted q cs s (adopt q cs s)
unfolding adopt
adopt-Adopted q [] s = record {
  taken = sym (append-nil (s.nodes q).children);
  others = λ r d. refl;
  parents = λ r. refl;
  freed = λ r. refl;
  pid = λ r. refl;
  code = λ r. refl;
  kernel = refl;
  dead_list = refl;
}
adopt-Adopted q (c ∷ cs) s =
    let g = adopt_one-Adopted q c s in
    let h = adopt-Adopted q cs (adopt_one q c s) in
    record {
      taken =
          h.taken
          ∙ ground (
            arith,
            g.taken,
            alive-kernel cs s (adopt_one q c s) g.kernel,
            append_assoc (s.nodes q).children (alive s (c ∷ [])) (alive s cs),
          );
      others = λ r d. h.others r d ∙ g.others r d;
      parents = λ r. ground (arith, h.parents r, g.parents r);
      freed =
          λ r. ground (arith, h.freed r, g.freed r, dead_in-kernel r s (adopt_one q c s) g.kernel);
      pid = λ r. h.pid r ∙ g.pid r;
      code = λ r. h.code r ∙ g.code r;
      kernel = h.kernel ∙ g.kernel;
      dead_list = h.dead_list ∙ g.dead_list;
    }

-- The process as `sys_exit` marks it before it looks at the children.
abbrev pub marked : ℕ → ℕ → Procs → Procs
marked p code s = record (set_status p dead s) {
  nodes = set_node p (record (s.nodes p) { code = code % 2 ^ 8 }) s.nodes;
}

alive-marked :
    (p code : ℕ) (s : Procs) (cs : List ℕ)
    → has p cs ≡ false
    → alive (marked p code s) cs ≡ alive s cs
alive-marked p code s [] o = refl
alive-marked p code s (c ∷ cs) o = ground (arith, o, alive-marked p code s cs)

first_for-has :
    (a p : ℕ) (procs : ℕ → Proc) (ps : List ℕ) → first_for a procs ps ≡ some p → has p ps ≡ true
unfolding first_for
first_for-has a p procs [] e = absurd (cc)
first_for-has a p procs (r ∷ rs) e = ground (arith, e, first_for-has a p procs rs)

-- `wakeup` writes to no process that is not asleep.
wakeup-keeps : (a p : ℕ) (s : Sched) → has p s.sleep_list ≡ false → (wakeup a s).procs p ≡ s.procs p
unfolding wakeup wake
wakeup-keeps a p s o = elim (Option-cases (first_for a s.procs s.sleep_list)) [
  | inl e ↦ rw e refl
  | inr (r, e) ↦ rw e (ground (arith, first_for-has a r s.procs s.sleep_list e, o))
]

sem_v-keeps :
    (a p : ℕ) (k : Kernel)
    → has p k.sched.sleep_list ≡ false
    → (sem_v a k).sched.procs p ≡ k.sched.procs p
unfolding sem_v
sem_v-keeps a p k o = ground (arith, wakeup-keeps a p k.sched o)

-- `sys_exit` where the process has no parent, and where it has.
sys_exit-none :
    (mem : Bool) (h clock code p : ℕ) (s : Procs)
    → (s.nodes p).parent ≡ none
    → sys_exit mem h clock code p s ≡ none
unfolding sys_exit
sys_exit-none mem h clock code p s e = rw (e, sys_exit) refl

unfoldable pub after_exit : Bool → ℕ → ℕ → ℕ → ℕ → ℕ → Procs → Procs
after_exit mem h clock code p q s =
    let m = marked p code s in depart mem h clock p q (adopt q (m.nodes p).children m)

pub sys_exit-some :
    (mem : Bool) (h clock code p q : ℕ) (s : Procs)
    → (s.nodes p).parent ≡ some q
    → sys_exit mem h clock code p s ≡ some (after_exit mem h clock code p q s)
unfolding sys_exit after_exit
sys_exit-some mem h clock code p q s e =
    ap
      (λ (o : Option ℕ).
        let x : Option Procs = elim o [
          | none ↦ none
          | some r ↦ some (after_exit mem h clock code p r s)
        ] in
        x)
      e

-- What the end of the process `p` with the parent `q` leaves.
pub record Exited (p q n : ℕ) (s t : Procs) : Type 0 where
  pub is_dead : dead_in t p ≡ true
  pub taken : (t.nodes q).children ≡ (s.nodes q).children ++ alive s (s.nodes p).children
  pub others : (r : ℕ) → r ≢ q → (t.nodes r).children ≡ (s.nodes r).children
  pub parents :
      (r : ℕ)
      → (t.nodes r).parent ≡ (if has r (s.nodes p).children then none else (s.nodes r).parent)
  pub freed : (r : ℕ) → t.freed r ≡ ((has r (s.nodes p).children && dead_in s r) || s.freed r)
  pub pid : (r : ℕ) → (t.nodes r).pid ≡ (s.nodes r).pid
  pub code : (t.nodes p).code ≡ n % 2 ^ 8
  pub dead_list : t.dead_list ≡ s.dead_list ++ p ∷ []

-- `sys_exit` of a process that is not asleep, has a parent and is no child of its own: the process is
-- dead and at the end of the list of the dead. Its living children, in their order, are the last
-- children of its parent, its dead children are freed, and all of them have a null parent. Every
-- other process keeps its parent, and its children unless it is the parent; all keep their pids, and
-- the code given is kept as a byte.
pub sys_exit-Exited :
    (mem : Bool) (h clock code p q : ℕ) (s : Procs)
    → (s.nodes p).parent ≡ some q
    → has p (s.nodes p).children ≡ false
    → has p s.kernel.sched.sleep_list ≡ false
    → (t : Procs) × (sys_exit mem h clock code p s ≡ some t) × Exited p q code s t
unfolding after_exit depart
sys_exit-Exited mem h clock code p q s e o w =
    let m : Procs = marked p code s in
    let cs : List ℕ = (s.nodes p).children in
    let same : (m.nodes p).children ≡ cs = ground arith in
    let u : Procs = adopt q (m.nodes p).children m in
    let a = subst (λ l. Adopted q l m u) same (adopt-Adopted q (m.nodes p).children m) in
    (
      after_exit mem h clock code p q s,
      sys_exit-some mem h clock code p q s e,
      record {
        is_dead = ground (
          arith,
          sem_v-keeps q p u.kernel,
          ap (λ k. k.sched.procs p) a.kernel,
          ap (λ k. has p k.sched.sleep_list) a.kernel,
          w,
        );
        taken = a.taken ∙ ground (arith, alive-marked p code s cs o);
        others = λ r d. a.others r d ∙ ground arith;
        parents = λ r. ground (arith, a.parents r);
        freed = λ r. ground (arith, a.freed r, o);
        pid = λ r. ground (arith, a.pid r);
        code = ground (arith, a.code p);
        dead_list = ground (arith, a.dead_list);
      },
    )

-- A living child of a process that ends is left with a null parent: when it ends in its turn,
-- whatever comes between that leaves its parent alone, `sys_exit` uses the null pointer.
pub sys_exit-orphan :
    (mem mem' : Bool) (h h' clock clock' code code' p q c : ℕ) (s t u : Procs)
    → (s.nodes p).parent ≡ some q
    → has p (s.nodes p).children ≡ false
    → has p s.kernel.sched.sleep_list ≡ false
    → has c (s.nodes p).children ≡ true
    → sys_exit mem h clock code p s ≡ some t
    → (u.nodes c).parent ≡ (t.nodes c).parent
    → sys_exit mem' h' clock' code' c u ≡ none
sys_exit-orphan mem mem' h h' clock clock' code code' p q c s t u e o w i r k =
    let (x, f, g) = sys_exit-Exited mem h clock code p q s e o w in
    let z : x ≡ t = ground (arith, f, r) in
    let n : (u.nodes c).parent ≡ none =
      k ∙ ap (λ y. (y.nodes c).parent) (sym z) ∙ rw (g.parents c) (rw i refl) in
    sys_exit-none mem' h' clock' code' c u n
