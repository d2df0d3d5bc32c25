-- ===== src/LinkedList/Insert.antt =====
-- `add_after`, `add_before` and `add_list` of os/kernel/include/list.h on a circular list.
use os_risc_v.Prelude.{
  ◌≡◌, false, ◌==◌, if◌then◌else◌, List, [], ◌∷◌, ◌++◌, append-nil, sym, arith, has, has-append,
}
use mathlib.Core.Path.{subst}
use os_risc_v.LinkedList.{Ptr, Heap, add_after, add_before, add_list}
use os_risc_v.LinkedList.Ring.{
  Chain, IsRing, first, last, Chain-ends, Chain-append, Chain-cut, Chain-join, Rest-frame, retarget,
  has-first, has-last, ne_of_has, Distinct-insert, Cut, cut_ring,
}

module _ (h : Heap) (a n : Ptr) (ne : (n == a) ≡ false) where
  next-add_after :
      (p : Ptr)
      → (add_after a n h).next p ≡ (if p == a then n else if p == n then h.next a else h.next p)
  unfolding add_after
  next-add_after p = ground arith

  prev-add_after :
      (p : Ptr)
      → (add_after a n h).prev p ≡ (if p == h.next a then n else if p == n then a else h.prev p)
  unfolding add_after
  prev-add_after p = ground arith

module _ (h : Heap) (l n : Ptr) (xs ys : List Ptr) (r : IsRing h l (xs ++ ys))
    (out : has n (l ∷ xs ++ ys) ≡ false) where
  abbrev a : Ptr
  a = last l xs

  abbrev q : Ptr
  q = first ys l

  abbrev g : Heap
  g = add_after a n h

  ends : (h.next a ≡ q) × (h.prev q ≡ a)
  ends = Chain-ends h l q xs (Chain-cut h l l xs ys r.chain).0

  cut : Cut l xs ys
  cut = cut_ring l xs ys r.distinct

  out_front : has n (l ∷ xs) ≡ false
  out_front = ground (arith, has-append n xs ys)

  out_back : has n (l ∷ ys) ≡ false
  out_back = ground (arith, has-append n xs ys)

  ne_last : (a == n) ≡ false
  ne_last = ne_of_has a n (l ∷ xs) (has-last l xs) out_front

  ne_first : (q == n) ≡ false
  ne_first = ne_of_has q n (l ∷ ys) (has-first ys l) out_back

  next_g : (p : Ptr) → g.next p ≡ (if p == a then n else if p == n then q else h.next p)
  next_g p = ground (arith, next-add_after h a n (ground (arith, ne_last)) p, ends)

  prev_g : (p : Ptr) → g.prev p ≡ (if p == q then n else if p == n then a else h.prev p)
  prev_g p = ground (arith, prev-add_after h a n (ground (arith, ne_last)) p, ends)

  front : Chain g l xs n
  front =
      retarget h g l q n xs (Chain-cut h l l xs ys r.chain).0 cut.front
        (λ p e i. ground (arith, next_g p, ne_of_has p n (l ∷ xs) e out_front))
        (λ p e. ground (
          arith,
          prev_g p,
          ne_of_has p n (l ∷ xs) (ground arith) out_front,
          ne_of_has p q xs e cut.first_front,
        ))
        (ground (arith, next_g a)) (ground (arith, prev_g n, ne_first))

  back : Chain g n ys l
  back =
      Chain-join g n l [] ys (ground (arith, next_g n, ne_last), ground (arith, prev_g q))
        (Rest-frame h g ys l
          (λ p e. ground (
            arith,
            next_g p,
            ne_of_has p n (l ∷ ys) (ground arith) out_back,
            ne_of_has p a ys e cut.last_back,
          ))
          (λ p e i. ground (arith, prev_g p, ne_of_has p n (l ∷ ys) e out_back)) cut.back cut.head
          (Chain-cut h l l xs ys r.chain).1)

  -- `add_after` at the last node of the front part, or at the head, puts `n` between the parts.
  insert_lem : IsRing g l (xs ++ n ∷ ys)
  insert_lem = record {
    chain = Chain-append g l n l xs ys front back;
    distinct = Distinct-insert n (l ∷ xs) ys r.distinct out;
  }

  prev-first : h.prev q ≡ a
  prev-first = ends.1

-- In a circular list that holds `xs`, `add_list` at the head makes a node that is not in it the
-- first one.
pub add_list-cons :
    (h : Heap) (l n : Ptr) (xs : List Ptr)
    → IsRing h l xs
    → has n (l ∷ xs) ≡ false
    → IsRing (add_list l n h) l (n ∷ xs)
unfolding add_list
add_list-cons h l n xs r out = insert_lem h l n [] xs r out

-- In a circular list that holds `xs` and then `x` and `ys`, `add_before` at `x` puts a new node
-- between `xs` and `x`.
pub add_before-insert :
    (h : Heap) (l n x : Ptr) (xs ys : List Ptr)
    → IsRing h l (xs ++ x ∷ ys)
    → has n (l ∷ xs ++ x ∷ ys) ≡ false
    → IsRing (add_before x n h) l (xs ++ n ∷ x ∷ ys)
unfolding add_before
add_before-insert h l n x xs ys r out =
    subst (λ p. IsRing (add_after p n h) l (xs ++ n ∷ x ∷ ys))
      (sym (prev-first h l n xs (x ∷ ys) r out)) (insert_lem h l n xs (x ∷ ys) r out)

-- In a circular list that holds `xs`, `add_before` at the head makes a new node the last one.
pub add_before-append :
    (h : Heap) (l n : Ptr) (xs : List Ptr)
    → IsRing h l xs
    → has n (l ∷ xs) ≡ false
    → IsRing (add_before l n h) l (xs ++ n ∷ [])
unfolding add_before
add_before-append h l n xs r out =
    let r' : IsRing h l (xs ++ []) = subst (IsRing h l) (sym (append-nil xs)) r in
    let out' : has n (l ∷ xs ++ []) ≡ false =
      subst (λ zs. has n (l ∷ zs) ≡ false) (sym (append-nil xs)) out in
    subst (λ p. IsRing (add_after p n h) l (xs ++ n ∷ [])) (sym (prev-first h l n xs [] r' out'))
      (insert_lem h l n xs [] r' out')
