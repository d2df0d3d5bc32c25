-- ===== src/Signals/Pending.antt =====
-- The order of the pending signals and the count of deadly ones, os/kernel/signal.c and procsyscall.c.
use os_risc_v.Prelude.{
  Bool, not, ◌&&◌, ℕ, ◌+◌, ◌-◌, ◌%◌, ◌^◌, ◌≡◌, refl, sym, ◌∙◌, ap, true, false, List, [], ◌∷◌, ◌++◌,
  ◌==◌, Bool-cases, inl, inr, arith, if◌then◌else◌,
}
use mathlib.Core.Path.{subst}
use os_risc_v.Signals.{
  make_sigframe, deliver_signals, Sigpending, Signals, is_deadly, in_range, send_signal, kill,
  sig_dfl, sigkill, Outcome, goes_on, caught, dies, by_default, Default, default_signal,
  dfl_sigkill, dfl_sigterm, dfl_sigchld, dfl_sig_handler, signal_handler, go_through, deliver,
}

abbrev pub count_deadly : List Sigpending → ℕ
count_deadly [] = 0
count_deadly (p ∷ ps) = (if is_deadly p.signo then 1 else 0) + count_deadly ps

-- No deadly signal stands behind another one that is not.
abbrev pub DeadlyFirst : List Sigpending → Type 0
DeadlyFirst [] = Unit
DeadlyFirst (p ∷ ps) = (is_deadly p.signo ≡ false → count_deadly ps ≡ 0) × DeadlyFirst ps

pub record IsPending (s : Signals) : Type 0 where
  pub order : DeadlyFirst s.pendings
  pub counted : s.receive_kill ≡ count_deadly s.pendings % 2 ^ 32

count_deadly-add :
    (ps : List Sigpending) (p : Sigpending)
    → is_deadly p.signo ≡ false
    → count_deadly (ps ++ p ∷ []) ≡ count_deadly ps
count_deadly-add [] p e = ground (arith, e)
count_deadly-add (q ∷ ps) p e = omega (arith, count_deadly-add ps p e)

DeadlyFirst-add :
    (ps : List Sigpending) (p : Sigpending)
    → is_deadly p.signo ≡ false
    → DeadlyFirst ps
    → DeadlyFirst (ps ++ p ∷ [])
DeadlyFirst-add [] p e d = (λ x. refl, tt)
DeadlyFirst-add (q ∷ ps) p e d = (λ x. count_deadly-add ps p e ∙ d.0 x, DeadlyFirst-add ps p e d.1)

deadly-in_range : (signo : ℕ) → is_deadly signo ≡ true → in_range signo ≡ true
deadly-in_range signo e = ground (arith, e)

kill-IsPending :
    (sender signo : ℕ) (s : Signals) → IsPending s → IsPending (kill true sender signo s)
unfolding kill send_signal
kill-IsPending sender signo s i = elim (Bool-cases (is_deadly signo)) [
  | inl e ↦
      rw (e, deadly-in_range signo e)
        (record {
          order = (λ x. absurd (ground (arith, e, x)), i.order);
          counted = rw e (omega (arith, i.counted));
        })
  | inr e ↦ elim (Bool-cases (in_range signo)) [
    | inl r ↦
        rw (e, r)
          (record {
            order =
                DeadlyFirst-add s.pendings (record { signo = signo; senderpid = sender }) e i.order;
            counted =
                i.counted
                ∙ ap (λ n. n % 2 ^ 32)
                    (sym (
                      count_deadly-add s.pendings (record { signo = signo; senderpid = sender })
                        e));
          })
    | inr r ↦ rw (e, r) i
  ]
]

-- What is left pending, and the count, are right after the handling of a signal.
abbrev pub Ends : Outcome → Type 0
Ends (goes_on t) = IsPending t
Ends (caught t) = IsPending t
Ends (dies t) = IsPending t

-- The same, with the list that is left.
abbrev Left : List Sigpending → Outcome → Type 0
Left ps (goes_on t) = IsPending t × (t.pendings ≡ ps)
Left ps (caught t) = IsPending t × (t.pendings ≡ ps)
Left ps (dies t) = IsPending t × (t.pendings ≡ ps)

by_default-Left :
    (d : Default) (t : Signals) (ps : List Sigpending)
    → IsPending t
    → t.pendings ≡ ps
    → Left ps (by_default d t)
by_default-Left default_signal t ps i e = (i, e)
by_default-Left dfl_sigkill t ps i e = (i, e)
by_default-Left dfl_sigterm t ps i e = (i, e)
by_default-Left dfl_sigchld t ps i e = (i, e)

counted-less :
    (p : Sigpending) (ps : List Sigpending) (n : ℕ)
    → n ≡ count_deadly (p ∷ ps) % 2 ^ 32
    → (if is_deadly p.signo then (n + 2 ^ 32 - 1) % 2 ^ 32 else n) ≡ count_deadly ps % 2 ^ 32
counted-less p ps n e = elim (Bool-cases (is_deadly p.signo)) [
  | inl d ↦ rw d (
      let f = subst (λ b. n ≡ ((if b then 1 else 0) + count_deadly ps) % 2 ^ 32) d e in
      omega (arith, f))
  | inr d ↦ rw d (
      let f = subst (λ b. n ≡ ((if b then 1 else 0) + count_deadly ps) % 2 ^ 32) d e in
      omega (arith, f))
]

signal_handler-Left :
    (p : Sigpending) (ps : List Sigpending) (s : Signals)
    → DeadlyFirst ps
    → s.receive_kill ≡ count_deadly (p ∷ ps) % 2 ^ 32
    → Left ps (signal_handler p (record s { pendings = ps }))
unfolding signal_handler make_sigframe
signal_handler-Left p ps s d e =
    elim (Bool-cases ((s.sigactions (p.signo - 1)).sa_handler == sig_dfl)) [
      | inl h ↦ rw h (
          by_default-Left (dfl_sig_handler (p.signo - 1)) _ ps
            (record { order = d; counted = counted-less p ps s.receive_kill e }) refl)
      | inr h ↦ rw h (record { order = d; counted = counted-less p ps s.receive_kill e }, refl)
    ]

Ends-through :
    (ps : List Sigpending) (go : Signals → Outcome) (o : Outcome)
    → Left ps o
    → ((t : Signals) → IsPending t → t.pendings ≡ ps → Ends (go t))
    → Ends (go_through go o)
Ends-through ps go (goes_on t) (i, e) f = f t i e
Ends-through ps go (caught t) (i, e) f = i
Ends-through ps go (dies t) (i, e) f = i

deliver-Ends :
    (ps : List Sigpending) (s : Signals) → IsPending s → s.pendings ≡ ps → Ends (deliver ps s)
unfolding deliver
deliver-Ends [] s i e = i
deliver-Ends (p ∷ ps) s i e =
    let d = subst DeadlyFirst e i.order in
    let c = subst (λ qs. s.receive_kill ≡ count_deadly qs % 2 ^ 32) e i.counted in
    Ends-through ps (deliver ps) (signal_handler p (record s { pendings = ps }))
      (signal_handler-Left p ps s d.1 c) (λ t j q. deliver-Ends ps t j q)

-- The deadly signals stay in front of all others, and `receive_kill` stays their number: after a kill,
-- with memory for the signal, whatever the number of the signal, and after the delivery at the end of
-- a trap, however it ends.
pub kill-deliver_signals :
    (s : Signals)
    → IsPending s
    → ((sender signo : ℕ) → IsPending (kill true sender signo s))
      × ((busy from_user : Bool) → Ends (deliver_signals busy from_user s))
unfolding deliver_signals
kill-deliver_signals s i = (
  λ sender signo. kill-IsPending sender signo s i,
  λ busy from_user. elim (Bool-cases (not busy && from_user)) [
    | inl e ↦ rw e (deliver-Ends s.pendings s i refl)
    | inr e ↦ rw e i
  ],
)

abbrev Died : Outcome → Type 0
Died (dies t) = Unit
Died other = ⊥

-- A SIGKILL to a process that has no handler of its own for it ends the process at the end of the next
-- trap from user mode outside of handlers, whatever else is pending.
kill-dies :
    (sender : ℕ) (s : Signals)
    → (s.sigactions 8).sa_handler ≡ sig_dfl
    → Died (deliver_signals false true (kill true sender sigkill s))
unfolding deliver_signals deliver signal_handler kill send_signal
kill-dies sender s e =
    let z : ((s.sigactions 8).sa_handler == sig_dfl) ≡ true = ground (arith, e) in rw z tt
