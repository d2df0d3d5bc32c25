-- ===== src/LinkedList/Ring.antt =====
-- The sequence of nodes that a circular list of os/kernel/include/list.h holds.
use os_risc_v.Prelude.{
  ◌≡◌, refl, true, false, ◌==◌, List, [], ◌∷◌, ◌++◌, sym, append-nil, arith, has, has-append,
  Distinct,
}
use mathlib.Core.Path.{subst}
use os_risc_v.LinkedList.{Ptr, Heap}

-- From `a` the `next` fields lead through `xs` to `b`, and the `prev` fields lead back.
abbrev pub Chain : Heap → Ptr → List Ptr → Ptr → Type 0
Chain h a [] b = (h.next a ≡ b) × (h.prev b ≡ a)
Chain h a (x ∷ xs) b = (h.next a ≡ x) × (h.prev x ≡ a) × Chain h x xs b

-- The list with head `l` holds exactly the nodes `xs`, in this order.
pub record IsRing (h : Heap) (l : Ptr) (xs : List Ptr) : Type 0 where
  pub chain : Chain h l xs l
  pub distinct : Distinct (l ∷ xs)

-- The first node of `xs`, or `b`; and the last node of `xs`, or `a`.
abbrev pub first : List Ptr → Ptr → Ptr
first [] b = b
first (x ∷ xs) b = x

abbrev pub last : Ptr → List Ptr → Ptr
last a [] = a
last a (x ∷ xs) = last x xs

pub Chain-ends :
    (h : Heap) (a b : Ptr) (xs : List Ptr)
    → Chain h a xs b
    → (h.next (last a xs) ≡ b) × (h.prev b ≡ last a xs)
Chain-ends h a b [] c = c
Chain-ends h a b (x ∷ xs) c = Chain-ends h x b xs c.2

pub Chain-append :
    (h : Heap) (a b c : Ptr) (xs ys : List Ptr)
    → Chain h a xs b
    → Chain h b ys c
    → Chain h a (xs ++ b ∷ ys) c
Chain-append h a b c [] ys p q = (p.0, p.1, q)
Chain-append h a b c (x ∷ xs) ys p q = (p.0, p.1, Chain-append h x b c xs ys p.2 q)

pub Chain-split :
    (h : Heap) (a b c : Ptr) (xs ys : List Ptr)
    → Chain h a (xs ++ b ∷ ys) c
    → Chain h a xs b × Chain h b ys c
Chain-split h a b c [] ys p = ((p.0, p.1), p.2)
Chain-split h a b c (x ∷ xs) ys p = let r = Chain-split h x b c xs ys p.2 in ((p.0, p.1, r.0), r.1)

-- A chain survives a change that spares the `next` fields of `a ∷ xs` and the `prev` of `b ∷ xs`.
pub frame :
    (h g : Heap) (a b : Ptr) (xs : List Ptr)
    → ((p : Ptr) → has p (a ∷ xs) ≡ true → g.next p ≡ h.next p)
    → ((p : Ptr) → has p (b ∷ xs) ≡ true → g.prev p ≡ h.prev p)
    → Chain h a xs b
    → Chain g a xs b
frame h g a b [] n p c = (ground (arith, n a), ground (arith, p b))
frame h g a b (x ∷ xs) n p c = (
  ground (arith, n a),
  ground (arith, p x),
  frame h g x b xs (λ q e. n q (ground arith)) (λ q e. p q (ground arith)) c.2,
)

pub has-first : (xs : List Ptr) (b : Ptr) → has (first xs b) (b ∷ xs) ≡ true
has-first [] b = ground arith
has-first (x ∷ xs) b = ground arith

pub has-last : (a : Ptr) (xs : List Ptr) → has (last a xs) (a ∷ xs) ≡ true
has-last a [] = ground arith
has-last a (x ∷ xs) = ground (arith, has-last x xs)

pub ne_of_has : (p a : Ptr) (xs : List Ptr) → has p xs ≡ true → has a xs ≡ false → (p == a) ≡ false
ne_of_has p a [] e o = cc
ne_of_has p a (x ∷ xs) e o = ground (arith, ne_of_has p a xs)

-- The front part of a chain, its last link turned from `b` to `q`.
pub retarget :
    (h g : Heap) (a b q : Ptr) (xs : List Ptr)
    → Chain h a xs b
    → Distinct (a ∷ xs)
    → ((p : Ptr) → has p (a ∷ xs) ≡ true → (p == last a xs) ≡ false → g.next p ≡ h.next p)
    → ((p : Ptr) → has p xs ≡ true → g.prev p ≡ h.prev p)
    → g.next (last a xs) ≡ q
    → g.prev q ≡ last a xs
    → Chain g a xs q
retarget h g a b q [] c d n p e f = (e, f)
retarget h g a b q (x ∷ xs) c d n p e f = (
  ground (arith, n a, ne_of_has (last x xs) a (x ∷ xs) (has-last x xs) d.0),
  ground (arith, p x),
  retarget h g x b q xs c.2 d.1 (λ r m. n r (ground arith)) (λ r m. p r (ground arith)) e f,
)

-- What follows the node at which a chain is cut, where `first ys b` is its first node.
abbrev pub Rest : Heap → List Ptr → Ptr → Type 0
Rest h [] b = Unit
Rest h (y ∷ ys) b = Chain h y ys b

pub Chain-cut :
    (h : Heap) (a b : Ptr) (xs ys : List Ptr)
    → Chain h a (xs ++ ys) b
    → Chain h a xs (first ys b) × Rest h ys b
Chain-cut h a b xs [] c = (subst (λ zs. Chain h a zs b) (append-nil xs) c, tt)
Chain-cut h a b xs (y ∷ ys) c = Chain-split h a y b xs ys c

pub Chain-join :
    (h : Heap) (a b : Ptr) (xs ys : List Ptr)
    → Chain h a xs (first ys b)
    → Rest h ys b
    → Chain h a (xs ++ ys) b
Chain-join h a b xs [] c r = subst (λ zs. Chain h a zs b) (sym (append-nil xs)) c
Chain-join h a b xs (y ∷ ys) c r = Chain-append h a y b xs ys c r

pub Rest-frame :
    (h g : Heap) (ys : List Ptr) (b : Ptr)
    → ((p : Ptr) → has p ys ≡ true → g.next p ≡ h.next p)
    → ((p : Ptr) → has p (b ∷ ys) ≡ true → (p == first ys b) ≡ false → g.prev p ≡ h.prev p)
    → Distinct ys
    → has b ys ≡ false
    → Rest h ys b
    → Rest g ys b
Rest-frame h g [] b n p d o r = tt
Rest-frame h g (y ∷ ys) b n p d o r =
    frame h g y b ys n (λ q e. p q (ground arith) (ne_of_has q y (b ∷ ys) e (ground arith))) r

pub Distinct-insert :
    (n : Ptr) (xs ys : List Ptr)
    → Distinct (xs ++ ys)
    → has n (xs ++ ys) ≡ false
    → Distinct (xs ++ n ∷ ys)
Distinct-insert n [] ys d o = (o, d)
Distinct-insert n (x ∷ xs) ys d o = (
  ground (arith, has-append x xs ys, has-append x xs (n ∷ ys)),
  Distinct-insert n xs ys d.1 (ground arith),
)

pub record Parts (xs : List Ptr) (n : Ptr) (ys : List Ptr) : Type 0 where
  pub whole : Distinct (xs ++ ys)
  pub front : Distinct xs
  pub back : Distinct ys
  pub out_front : has n xs ≡ false
  pub out_back : has n ys ≡ false

pub Distinct-Parts : (n : Ptr) (xs ys : List Ptr) → Distinct (xs ++ n ∷ ys) → Parts xs n ys
Distinct-Parts n [] ys d = record {
  whole = d.1;
  front = tt;
  back = d.1;
  out_front = refl;
  out_back = d.0;
}
Distinct-Parts n (x ∷ xs) ys d =
    let r = Distinct-Parts n xs ys d.1 in
    record {
      whole = (ground (arith, has-append x xs ys, has-append x xs (n ∷ ys)), r.whole);
      front = (ground (arith, has-append x xs (n ∷ ys)), r.front);
      back = r.back;
      out_front = ground (arith, has-append x xs (n ∷ ys), r.out_front);
      out_back = r.out_back;
    }

-- A member of the back part is no member of the front part.
pub apart : (p : Ptr) (xs ys : List Ptr) → Distinct (xs ++ ys) → has p ys ≡ true → has p xs ≡ false
apart p [] ys d e = refl
apart p (x ∷ xs) ys d e =
    ground (arith, apart p xs ys d.1 e, has-append x xs ys, ne_of_has p x ys e)

pub apart_back :
    (p : Ptr) (xs ys : List Ptr) → Distinct (xs ++ ys) → has p xs ≡ true → has p ys ≡ false
apart_back p xs ys d e = ground (arith, apart p xs ys d)

-- What the two nodes beside a cut of the ring `l ∷ xs ++ ys` are apart from.
pub record Cut (l : Ptr) (xs ys : List Ptr) : Type 0 where
  pub front : Distinct (l ∷ xs)
  pub back : Distinct ys
  pub head : has l ys ≡ false
  pub first_front : has (first ys l) xs ≡ false
  pub last_back : has (last l xs) ys ≡ false

Distinct-cut : (xs ys : List Ptr) → Distinct (xs ++ ys) → Distinct xs × Distinct ys
Distinct-cut [] ys d = (tt, d)
Distinct-cut (x ∷ xs) ys d =
    let r = Distinct-cut xs ys d.1 in ((ground (arith, has-append x xs ys), r.0), r.1)

first-front : (l : Ptr) (xs ys : List Ptr) → Distinct (l ∷ xs ++ ys) → has (first ys l) xs ≡ false
first-front l xs [] d = ground (arith, has-append l xs [])
first-front l xs (y ∷ ys) d = apart y xs (y ∷ ys) d.1 (ground arith)

pub cut_ring : (l : Ptr) (xs ys : List Ptr) → Distinct (l ∷ xs ++ ys) → Cut l xs ys
cut_ring l xs ys d = record {
  front = (Distinct-cut (l ∷ xs) ys d).0;
  back = (Distinct-cut (l ∷ xs) ys d).1;
  head = ground (arith, has-append l xs ys);
  first_front = first-front l xs ys d;
  last_back = apart_back (last l xs) (l ∷ xs) ys d (has-last l xs);
}
