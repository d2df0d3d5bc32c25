-- ===== src/LinkedList/Remove.antt =====
-- `del_list`, `init_list` and `is_empty_list` of os/kernel/include/list.h on a circular list.
use os_risc_v.Prelude.{◌≡◌, refl, false, true, ◌==◌, if◌then◌else◌, List, [], ◌∷◌, ◌++◌, ◌↔◌, arith}
use os_risc_v.LinkedList.{Ptr, Heap, init_list, del_list, is_empty_list}
use os_risc_v.LinkedList.Ring.{
  Chain, IsRing, first, last, Chain-ends, Chain-split, Chain-cut, Chain-join, Rest, Rest-frame,
  retarget, has-first, has-last, ne_of_has, Cut, cut_ring, Parts, Distinct-Parts,
}

module _ (h : Heap) (x : Ptr) (apart_prev : (h.prev x == x) ≡ false)
    (apart_next : (h.next x == x) ≡ false) where
  next-del_list :
      (p : Ptr)
      → (del_list x h).next p ≡ (if p == x then x else if p == h.prev x then h.next x else h.next p)
  unfolding del_list
  next-del_list p = ground arith

  prev-del_list :
      (p : Ptr)
      → (del_list x h).prev p ≡ (if p == x then x else if p == h.next x then h.prev x else h.prev p)
  unfolding del_list
  prev-del_list p = ground arith

module _ (h : Heap) (l x : Ptr) (xs ys : List Ptr) (r : IsRing h l (xs ++ x ∷ ys)) where
  abbrev a : Ptr
  a = last l xs

  abbrev q : Ptr
  q = first ys l

  abbrev g : Heap
  g = del_list x h

  split : Chain h l xs x × Chain h x ys l
  split = Chain-split h l x l xs ys r.chain

  parts : Parts (l ∷ xs) x ys
  parts = Distinct-Parts x (l ∷ xs) ys r.distinct

  cut : Cut l xs ys
  cut = cut_ring l xs ys parts.whole

  prev_x : h.prev x ≡ a
  prev_x = (Chain-ends h l x xs split.0).1

  next_x : h.next x ≡ q
  next_x = (Chain-ends h x q [] (Chain-cut h x l [] ys split.1).0).0

  ne_last : (a == x) ≡ false
  ne_last = ne_of_has a x (l ∷ xs) (has-last l xs) parts.out_front

  ne_head : (l == x) ≡ false
  ne_head = ground (arith, parts.out_front)

  ne_first : (q == x) ≡ false
  ne_first = ne_of_has q x (l ∷ ys) (has-first ys l) (ground (arith, parts.out_back, ne_head))

  next_g : (p : Ptr) → g.next p ≡ (if p == x then x else if p == a then q else h.next p)
  next_g p = ground (
    arith,
    next-del_list h x (ground (arith, prev_x, ne_last)) (ground (arith, next_x, ne_first)) p,
    prev_x,
    next_x,
  )

  prev_g : (p : Ptr) → g.prev p ≡ (if p == x then x else if p == q then a else h.prev p)
  prev_g p = ground (
    arith,
    prev-del_list h x (ground (arith, prev_x, ne_last)) (ground (arith, next_x, ne_first)) p,
    prev_x,
    next_x,
  )

  front : Chain g l xs q
  front =
      retarget h g l x q xs split.0 cut.front
        (λ p e i. ground (arith, next_g p, ne_of_has p x (l ∷ xs) e parts.out_front))
        (λ p e. ground (
          arith,
          prev_g p,
          ne_of_has p x (l ∷ xs) (ground arith) parts.out_front,
          ne_of_has p q xs e cut.first_front,
        ))
        (ground (arith, next_g a, ne_last)) (ground (arith, prev_g q, ne_first))

  back : Rest g ys l
  back =
      Rest-frame h g ys l
        (λ p e.
          ground
            (arith, next_g p, ne_of_has p x ys e parts.out_back, ne_of_has p a ys e cut.last_back))
        (λ p e i.
          ground
            (arith, prev_g p, ne_of_has p x (l ∷ ys) e (ground (arith, parts.out_back, ne_head))))
        cut.back cut.head (Chain-cut h x l [] ys split.1).1

  -- `del_list` takes a node out of a circular list and leaves the others in their order, and the
  -- node is afterwards an empty circular list of its own.
  pub del_list-remove : IsRing (del_list x h) l (xs ++ ys) × IsRing (del_list x h) x []
  del_list-remove = (
    record { chain = Chain-join g l l xs ys front back; distinct = parts.whole },
    record { chain = (ground (arith, next_g x), ground (arith, prev_g x)); distinct = (refl, tt) },
  )

-- `init_list` makes any node an empty circular list.
pub init_list-nil : (h : Heap) (l : Ptr) → IsRing (init_list l h) l []
unfolding init_list
init_list-nil h l = record { chain = (ground arith, ground arith); distinct = (refl, tt) }

-- `is_empty_list` is true of a circular list exactly when it holds no node.
pub is_empty_list_iff :
    (h : Heap) (l : Ptr) (xs : List Ptr) → IsRing h l xs → (is_empty_list l h ≡ true) ↔ (xs ≡ [])
unfolding is_empty_list
is_empty_list_iff h l [] r = (λ e. refl, λ e. ground (arith, r.chain))
is_empty_list_iff h l (x ∷ xs) r = (λ e. ground (arith, r.chain, r.distinct), λ e. cc)
