-- ===== src/Vmm/Copy/Splits.antt =====
-- Every byte goes to its own address.
use os_risc_v.Prelude.{
  ℕ, zero, suc, ◌+◌, ◌-◌, ◌%◌, ◌^◌, ◌≤◌, ◌<◌, ◌≡◌, refl, sym, ap, subst, ◌∙◌, Bool, true, false,
  Option, none, some, List, [], ◌∷◌, ◌==◌, ltb, if◌then◌else◌, arith, Bool-cases, inl, inr,
}
use os_risc_v.Vmm.{page_size, page_down}
use os_risc_v.Vmm.Table.{Vm, va2pa, walk_va, entry_pa, index0, index1, index2}
use os_risc_v.Vmm.Copy.{pa2kva, userva2kernelva, Chunk, chunk_size, copy2user}

-- Where, and from where, the byte `i` of the sequence of copies is taken.
abbrev pub moved : List Chunk → ℕ → Option (ℕ × ℕ)
moved [] i = none
moved (c ∷ cs) i =
    let rest = moved cs (i - c.size) in
    if ltb i c.size then some ((c.to + i) % 2 ^ 64, (c.from + i) % 2 ^ 64) else rest

pub record Copied (vm : Vm) (pgt va from len : ℕ) (ok : Bool) (cs : List Chunk) (m : ℕ)
    : Type 0 where
  pub at_most : m ≤ len
  pub moves :
      (i : ℕ) → i < m → moved cs i ≡ some (userva2kernelva vm pgt (va + i), (from + i) % 2 ^ 64)
  pub others : (i : ℕ) → m ≤ i → moved cs i ≡ none
  pub all : ok ≡ true → m ≡ len
  pub stops : ok ≡ false → (m < len) × (userva2kernelva vm pgt (va + m) ≡ 0)

same_walk :
    (vm : Vm) (pgt va i : ℕ)
    → va % page_size + i < page_size
    → walk_va vm pgt (va + i) ≡ walk_va vm pgt va
same_walk vm pgt va i l =
    let a : index0 (va + i) ≡ index0 va = omega (arith, l) in
    let b : index1 (va + i) ≡ index1 va = omega (arith, l) in
    let c : index2 (va + i) ≡ index2 va = omega (arith, l) in rw (a, b, c) refl

within_page :
    (vm : Vm) (pgt va i : ℕ)
    → va % page_size + i < page_size
    → (userva2kernelva vm pgt va == 0) ≡ false
    → userva2kernelva vm pgt (va + i) ≡ (userva2kernelva vm pgt va + i) % 2 ^ 64
unfolding userva2kernelva va2pa
within_page vm pgt va i l n =
    let w = same_walk vm pgt va i l in
    ap (λ e. pa2kva (entry_pa (va + i) e)) w ∙ at (walk_va vm pgt va) n
  where
    at :
        (e : Option ℕ)
        → (pa2kva (entry_pa va e) == 0) ≡ false
        → pa2kva (entry_pa (va + i) e) ≡ (pa2kva (entry_pa va e) + i) % 2 ^ 64
    at none n = ground (arith, n)
    at (some e) n =
        let p : entry_pa (va + i) (some e) ≡ entry_pa va (some e) + i = omega (arith, l) in
        ap pa2kva p ∙ ground (arith, n)

one_round :
    (f : ℕ) (vm : Vm) (pgt va from len : ℕ) (ok : Bool) (cs : List Chunk)
    → (len == 0) ≡ false
    → (userva2kernelva vm pgt va == 0) ≡ false
    → (let n = chunk_size va len in
        va + n < 2 ^ 64
        → copy2user f vm pgt (va + n) ((from + n) % 2 ^ 64) (len - n) ≡ some (ok, cs)
        → copy2user (suc f) vm pgt va from len
          ≡ some (ok, record { to = userva2kernelva vm pgt va; from = from; size = n } ∷ cs))
unfolding copy2user
one_round f vm pgt va from len ok cs o k l r =
    let c : (va + chunk_size va len) % 2 ^ 64 ≡ va + chunk_size va len = omega (arith, l) in
    rw (o, k, c, r) refl

no_bytes : (vm : Vm) (pgt va from len : ℕ) → len ≡ 0 → Copied vm pgt va from len true [] 0
no_bytes vm pgt va from len e = record {
  at_most = omega arith;
  moves = λ i l. ground (arith, l);
  others = λ i l. refl;
  all = λ x. sym e;
  stops = λ x. ground (arith, x);
}

no_page :
    (vm : Vm) (pgt va from len : ℕ)
    → 0 < len
    → userva2kernelva vm pgt va ≡ 0
    → Copied vm pgt va from len false [] 0
no_page vm pgt va from len l z = record {
  at_most = omega arith;
  moves = λ i l. ground (arith, l);
  others = λ i l. refl;
  all = λ x. ground (arith, x);
  stops =
      λ x. let y : va ≡ va + 0 = omega arith in (l, subst (λ a. userva2kernelva vm pgt a ≡ 0) y z);
}

next_chunk :
    (vm : Vm) (pgt va from len n m : ℕ) (ok : Bool) (cs : List Chunk)
    → 0 < n
    → n ≤ len
    → va % page_size + n ≤ page_size
    → (userva2kernelva vm pgt va == 0) ≡ false
    → Copied vm pgt (va + n) ((from + n) % 2 ^ 64) (len - n) ok cs m
    → Copied vm pgt va from len ok
        (record { to = userva2kernelva vm pgt va; from = from; size = n } ∷ cs)
        (n + m)
next_chunk vm pgt va from len n m ok cs p b w k t = record {
  at_most = omega (arith, b, t.at_most);
  moves = λ i l. elim (Bool-cases (ltb i n)) [
    | inl e ↦ rw e (
        ap (λ x. some (x, (from + i) % 2 ^ 64))
          (sym (within_page vm pgt va i (ground (arith, e, w)) k)))
    | inr o ↦
        let j : ℕ = i - n in
        let x : va + n + j ≡ va + i = ground (arith, o) in
        let y : ((from + n) % 2 ^ 64 + j) % 2 ^ 64 ≡ (from + i) % 2 ^ 64 = ground (arith, o) in
        rw o (t.moves j (ground (arith, o, l)) ∙ rw (x, y) refl)
  ];
  others = λ i l.
      let o : ltb i n ≡ false = ground (arith, l) in rw o (t.others (i - n) (omega (arith, l)));
  all = λ x. omega (arith, t.all x, b);
  stops = λ x.
      let (l, z) = t.stops x in
      let y : va + n + m ≡ va + (n + m) = omega arith in
      (omega (arith, l), subst (λ a. userva2kernelva vm pgt a ≡ 0) y z);
}

-- `copy2user`, with more fuel than bytes, to addresses below 2^64, ends. It moves the first `m`
-- bytes, each to the kernel address of its own address of user memory, and no others. It returns 1
-- where these are all, and else 0 at the first page that is not there.
pub copy2user-Copied :
    (f : ℕ) (vm : Vm) (pgt va from len : ℕ)
    → len < f
    → va + len < 2 ^ 64
    → (ok : Bool) × (cs : List Chunk) × (m : ℕ) × (copy2user f vm pgt va from len ≡ some (ok, cs))
      × Copied vm pgt va from len ok cs m
unfolding copy2user
copy2user-Copied zero vm pgt va from len l h = let n : ⊥ = omega (arith, l) in elim n [ ]
copy2user-Copied (suc f) vm pgt va from len l h =
    let kva = userva2kernelva vm pgt va in
    let n = chunk_size va len in
    elim (Bool-cases (len == 0)) [
      | inl e ↦ (true, [], 0, rw e refl, no_bytes vm pgt va from len (ground (arith, e)))
      | inr o ↦ elim (Bool-cases (kva == 0)) [
        | inl z ↦ (
          false,
          [],
          0,
          rw (o, z) refl,
          no_page vm pgt va from len (ground (arith, o)) (ground (arith, z)),
        )
        | inr k ↦
            let a : 0 < n = unfold page_down in ground (arith, o) in
            let b : n ≤ len = unfold page_down in ground arith in
            let (ok, cs, m, r, t) =
              copy2user-Copied f vm pgt (va + n) ((from + n) % 2 ^ 64) (len - n)
                (omega (arith, a, b, l)) (omega (arith, b, h)) in
            (
              ok,
              record { to = kva; from = from; size = n } ∷ cs,
              n + m,
              one_round f vm pgt va from len ok cs o k (omega (arith, b, h)) r,
              next_chunk vm pgt va from len n m ok cs a b (unfold page_down in ground arith) k t,
            )
      ]
    ]
