-- ===== src/Sched/Expire.antt =====
-- The waiting processes whose time has come, os/kernel/timer.c.
use os_risc_v.Prelude.{
  ℕ, ◌≡◌, refl, sym, Bool, true, not, ◌&&◌, List, [], ◌∷◌, ◌++◌, append-nil, append_assoc, leb,
  arith, if◌then◌else◌, has,
}
use os_risc_v.Sched.{Proc, set_proc, expire}

-- The entries of a list that pass a test, in their order.
abbrev pub those : (ℕ → Bool) → List ℕ → List ℕ
those f [] = []
those f (x ∷ xs) = let rest = those f xs in if f x then x ∷ rest else rest

abbrev pub is_due : ℕ → (ℕ → Proc) → ℕ → Bool
is_due t procs p = leb (procs p).t_wait t

abbrev pub released : Proc → Proc
released c = record c { t_wait = 0 }

those-due :
    (t p : ℕ) (procs : ℕ → Proc) (ws : List ℕ)
    → is_due t procs p ≡ true
    → (those (is_due t (set_proc p (released (procs p)) procs)) ws ≡ those (is_due t procs) ws)
      × (those (λ q. not (is_due t (set_proc p (released (procs p)) procs) q)) ws
          ≡ those (λ q. not (is_due t procs q)) ws)
those-due t p procs [] e = (refl, refl)
those-due t p procs (w ∷ ws) e = ground (arith, those-due t p procs ws e)

expire-lists :
    (t : ℕ) (procs : ℕ → Proc) (ws queue : List ℕ)
    → let r = expire t procs ws queue in
      (r.1 ≡ those (λ p. not (is_due t procs p)) ws) × (r.2 ≡ queue ++ those (is_due t procs) ws)
unfolding expire
expire-lists t procs [] queue = (refl, sym (append-nil queue))
expire-lists t procs (w ∷ ws) queue =
    let d = set_proc w (released (procs w)) procs in
    ground (
      arith,
      those-due t w procs ws,
      append_assoc queue (w ∷ []) (those (is_due t procs) ws),
      expire-lists t d ws (queue ++ w ∷ []),
      expire-lists t procs ws queue,
    )

expire-procs :
    (t q : ℕ) (procs : ℕ → Proc) (ws queue : List ℕ)
    → (expire t procs ws queue).0 q
      ≡ (if has q ws && is_due t procs q then released (procs q) else procs q)
unfolding expire
expire-procs t q procs [] queue = refl
expire-procs t q procs (w ∷ ws) queue =
    let d = set_proc w (released (procs w)) procs in
    ground (arith, expire-procs t q d ws (queue ++ w ∷ []), expire-procs t q procs ws queue)

-- The loop of the timer leaves on the waiting list exactly the processes whose time has not come and
-- puts the others at the end of the ready list, both in the order of the waiting list; of the
-- processes it writes only those that it releases, and only their time.
pub expire-those :
    (t : ℕ) (procs : ℕ → Proc) (ws queue : List ℕ)
    → let r = expire t procs ws queue in
      (r.1 ≡ those (λ p. not (is_due t procs p)) ws)
      × (r.2 ≡ queue ++ those (is_due t procs) ws)
      × ((q : ℕ) → r.0 q ≡ (if has q ws && is_due t procs q then released (procs q) else procs q))
expire-those t procs ws queue = (
  (expire-lists t procs ws queue).0,
  (expire-lists t procs ws queue).1,
  λ q. expire-procs t q procs ws queue,
)
