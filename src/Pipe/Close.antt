-- ===== src/Pipe/Close.antt =====
-- The ends of a pipe, os/kernel/pipe.c.
use os_risc_v.Prelude.{
  ℕ, ◌+◌, ◌-◌, ◌≤◌, ◌<◌, ◌≡◌, refl, ap, Bool, true, false, ◌&&◌, Option, none, some, List, [], ◌∷◌,
  map, Bool-cases, inl, inr, ◌∙◌, arith, ◌==◌, if◌then◌else◌, ℤ, pos, negsuc,
}
use os_risc_v.Pipe.{Pipe}

-- `ufile_type_t` of os/kernel/include/fs.h
pub data UfileType : Type 0 where
  stdin stdout stderr pipein pipeout link file dir : UfileType

abbrev pub closed : UfileType → Pipe → ℤ × Pipe
closed pipein p = if p.r_ref == 0 then (negsuc 0, p) else (pos 0, record p { r_ref = p.r_ref - 1 })
closed pipeout p = if p.w_ref == 0 then (negsuc 0, p) else (pos 0, record p { w_ref = p.w_ref - 1 })
closed other p = (pos 0, p)

-- `none` is the pipe given back by `kfree`.
unfoldable pub pipe_close : UfileType → Pipe → ℤ × Option Pipe
pipe_close e p =
    let (r, q) = closed e p in if q.r_ref == 0 && q.w_ref == 0 then (r, none) else (r, some q)

-- One end after the other, up to the one at which the pipe is given back; with those that are left.
abbrev pub close_all : List UfileType → Option Pipe → List UfileType × Option Pipe
close_all es none = (es, none)
close_all [] (some p) = ([], some p)
close_all (e ∷ es) (some p) = close_all es (pipe_close e p).1

-- The read end is `true`.
abbrev pub end_of : Bool → UfileType
end_of true = pipein
end_of false = pipeout

abbrev pub count : Bool → List Bool → ℕ
count b [] = 0
count true (c ∷ cs) = (if c then 1 else 0) + count true cs
count false (c ∷ cs) = (if c then 0 else 1) + count false cs

abbrev pub left : List Bool → Pipe → Option Pipe
left es p =
    if count true es == p.r_ref && count false es == p.w_ref
    then none
    else some (record p { r_ref = p.r_ref - count true es; w_ref = p.w_ref - count false es })

pub close-in :
    (p : Pipe)
    → 0 < p.r_ref
    → (pipe_close pipein p).1
      ≡ (if p.r_ref == 1 && p.w_ref == 0 then none else some (record p { r_ref = p.r_ref - 1 }))
unfolding pipe_close
close-in p l = ground (arith, l)

pub close-out :
    (p : Pipe)
    → 0 < p.w_ref
    → (pipe_close pipeout p).1
      ≡ (if p.r_ref == 0 && p.w_ref == 1 then none else some (record p { w_ref = p.w_ref - 1 }))
unfolding pipe_close
close-out p l = ground (arith, l)

count-none : (es : List Bool) → count true es + count false es ≡ 0 → map end_of es ≡ []
count-none [] e = refl
count-none (true ∷ es) e = absurd (omega (arith, e))
count-none (false ∷ es) e = absurd (omega (arith, e))

close_all-gone :
    (es : List Bool)
    → count true es + count false es ≡ 0
    → close_all (map end_of es) none ≡ ([], none)
close_all-gone es e = rw (count-none es e) refl

-- A pipe with a reader or a writer, whose ends are closed one after the other in any order, no more of
-- either kind than it has, is given back exactly with the last of them.
pub close_all-last :
    (es : List Bool) (p : Pipe)
    → 0 < p.r_ref + p.w_ref
    → count true es ≤ p.r_ref
    → count false es ≤ p.w_ref
    → close_all (map end_of es) (some p) ≡ ([], left es p)
close_all-last [] p l m n = ground (arith, l)
close_all-last (true ∷ es) p l m n =
    ap (close_all (map end_of es)) (close-in p (omega (arith, m)))
    ∙ (elim (Bool-cases (p.r_ref == 1 && p.w_ref == 0)) [
      | inl e ↦ rw e (ground (arith, e, m, n, close_all-gone es))
      | inr e ↦ rw e (
          close_all-last es (record p { r_ref = p.r_ref - 1 }) (ground (arith, e, m))
            (omega (arith, m)) (omega (arith, n))
          ∙ ground (arith, e, m, n))
    ])
close_all-last (false ∷ es) p l m n =
    ap (close_all (map end_of es)) (close-out p (omega (arith, n)))
    ∙ (elim (Bool-cases (p.r_ref == 0 && p.w_ref == 1)) [
      | inl e ↦ rw e (ground (arith, e, m, n, close_all-gone es))
      | inr e ↦ rw e (
          close_all-last es (record p { w_ref = p.w_ref - 1 }) (ground (arith, e, n))
            (omega (arith, m)) (omega (arith, n))
          ∙ ground (arith, e, m, n))
    ])
