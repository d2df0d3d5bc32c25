-- ===== src/Sched/Conserve.antt =====
-- The places of a process: its entries in the lists and the harts that run it,
-- os/kernel/sched.c and timer.c.
use os_risc_v.Prelude.{
  ℕ, ◌+◌, ◌<◌, ◌≡◌, refl, ◌∙◌, inl, inr, Bool, true, none, some, List, [], ◌∷◌, arith, has,
  Option-cases,
}
use os_risc_v.Sched.{
  harts, Sched, choose, yields, nanosleep, rouse, dispatch, schedule, sleep, first_for, wake,
  wakeup, preempt, tick, set_next_time,
}
use os_risc_v.Sched.Counts.{
  count, count-append, count_cur, count_cur-set, count-unlink, first_for-has, choose-has,
  count-expire,
}

abbrev pub places : ℕ → Sched → ℕ
places p s =
    count p s.ready_list + count p s.wait_list + count p s.sleep_list + count_cur harts p s.cur_proc

places-dispatch :
    (h t q : ℕ) (qs : List ℕ) (s : Sched)
    → s.ready_list ≡ qs
    → h < harts
    → s.cur_proc h ≡ none
    → places q (dispatch h t qs s) ≡ places q s
unfolding dispatch
places-dispatch h t q [] s r l e = ground (arith, e, r, count_cur-set harts h q none s.cur_proc l)
places-dispatch h t q (p ∷ ps) s r l e =
    let c = (choose t p ps).0 in
    ground (
      arith,
      e,
      r,
      count-unlink q c (p ∷ ps) (choose-has t p ps),
      count_cur-set harts h q (some c) s.cur_proc l,
    )

places-schedule :
    (h t q : ℕ) (s : Sched)
    → h < harts
    → s.cur_proc h ≡ none
    → places q (schedule h t s) ≡ places q s
unfolding schedule
places-schedule h t q s l e = places-dispatch h t q s.ready_list s refl l e

places-sleep :
    (h t sem p q : ℕ) (s : Sched)
    → h < harts
    → s.cur_proc h ≡ some p
    → places q (sleep h t sem p s) ≡ places q s
unfolding sleep
places-sleep h t sem p q s l e =
    ground
      (arith, e, count-append q s.sleep_list (p ∷ []), count_cur-set harts h q none s.cur_proc l)

places-yields :
    (h t p q : ℕ) (s : Sched)
    → h < harts
    → s.cur_proc h ≡ some p
    → places q (yields h t p s) ≡ places q s
unfolding yields
places-yields h t p q s l e =
    ground
      (arith, e, count-append q s.ready_list (p ∷ []), count_cur-set harts h q none s.cur_proc l)

places-nanosleep :
    (h t t' sec nsec p q : ℕ) (s : Sched)
    → h < harts
    → s.cur_proc h ≡ some p
    → places q (nanosleep h t t' sec nsec p s) ≡ places q s
unfolding nanosleep
places-nanosleep h t t' sec nsec p q s l e =
    ground
      (arith, e, count-append q s.wait_list (p ∷ []), count_cur-set harts h q none s.cur_proc l)

places-rouse : (p q : ℕ) (s : Sched) → has p s.sleep_list ≡ true → places q (rouse p s) ≡ places q s
unfolding rouse wake
places-rouse p q s e = ground (arith, count-unlink q p s.sleep_list e)

places-wakeup : (sem q : ℕ) (s : Sched) → places q (wakeup sem s) ≡ places q s
unfolding wakeup wake
places-wakeup sem q s = elim (Option-cases (first_for sem s.procs s.sleep_list)) [
  | inl e ↦ rw e refl
  | inr (p, e) ↦
      rw e
        (omega (arith, count-unlink q p s.sleep_list (first_for-has sem s.procs s.sleep_list p e)))
]

places-preempt :
    (h t q : ℕ) (s : Sched) → h < harts → places q (preempt h t (s.cur_proc h) s) ≡ places q s
unfolding preempt
places-preempt h t q s l = elim (Option-cases (s.cur_proc h)) [
  | inl e ↦ rw e refl
  | inr (p, e) ↦ rw e (
      ground
        (arith, e, count-append q s.ready_list (p ∷ []), count_cur-set harts h q none s.cur_proc l))
]

places-tick :
    (print : Bool) (tbase h t q : ℕ) (s u : Sched)
    → tick print tbase h t s ≡ some u
    → places q u ≡ places q s
unfolding tick
places-tick print tbase h t q s u e =
    ground (arith, count-expire t q s.procs s.wait_list s.ready_list)

places-set_next_time :
    (print : Bool) (tbase h t q : ℕ) (s u : Sched)
    → h < harts
    → set_next_time print tbase h t s ≡ some u
    → places q u ≡ places q s
unfolding set_next_time
places-set_next_time print tbase h t q s u l e = elim (Option-cases (tick print tbase h t s)) [
  | inl n ↦ ground (arith, e, n, places-preempt h t q s l)
  | inr (v, n) ↦ ground (
    arith,
    e,
    n,
    places-tick print tbase h t q s v n,
    places-preempt h t q s l,
    places-preempt h t q v l,
  )
]

-- A switch of a process, with the conditions under which the code makes it.
pub data Step : Sched → Sched → Type 0 where
  dispatches : (h t : ℕ) (s : Sched) → h < harts → s.cur_proc h ≡ none → Step s (schedule h t s)
  sleeps :
      (h t sem p : ℕ) (s : Sched) → h < harts → s.cur_proc h ≡ some p → Step s (sleep h t sem p s)
  steps_aside :
      (h t p : ℕ) (s : Sched) → h < harts → s.cur_proc h ≡ some p → Step s (yields h t p s)
  pauses :
      (h t t' sec nsec p : ℕ) (s : Sched)
      → h < harts
      → s.cur_proc h ≡ some p
      → Step s (nanosleep h t t' sec nsec p s)
  roused : (p : ℕ) (s : Sched) → has p s.sleep_list ≡ true → Step s (rouse p s)
  wakes : (sem : ℕ) (s : Sched) → Step s (wakeup sem s)
  times :
      (print : Bool) (tbase h t : ℕ) (s u : Sched)
      → h < harts
      → set_next_time print tbase h t s ≡ some u
      → Step s u

pub data Steps : Sched → Sched → Type 0 where
  start : (s : Sched) → Steps s s
  more : (s u v : Sched) → Steps s u → Step u v → Steps s v

places-Step : (q : ℕ) (s u : Sched) → Step s u → places q u ≡ places q s
places-Step q s u (dispatches h t _ l e) = places-schedule h t q s l e
places-Step q s u (sleeps h t sem p _ l e) = places-sleep h t sem p q s l e
places-Step q s u (steps_aside h t p _ l e) = places-yields h t p q s l e
places-Step q s u (pauses h t t' sec nsec p _ l e) = places-nanosleep h t t' sec nsec p q s l e
places-Step q s u (roused p _ e) = places-rouse p q s e
places-Step q s u (wakes sem _) = places-wakeup sem q s
places-Step q s u (times print tbase h t _ _ l e) = places-set_next_time print tbase h t q s u l e

-- Whatever rounds of the scheduler, sleeps, yields, wakeups, timer interrupts and kills of processes
-- on the sleep list follow one another on the harts, every process keeps its number of places: the entries of the three lists that hold it and
-- the harts that run it.
pub places-Steps : (q : ℕ) (s u : Sched) → Steps s u → places q u ≡ places q s
places-Steps q s u (start _) = refl
places-Steps q s u (more _ v _ r m) = places-Step q v u m ∙ places-Steps q s v r
