-- ===== src/LinkedList/Tests.antt =====
-- The list operations on small heaps.
use os_risc_v.Prelude.{◌==◌, if◌then◌else◌, List, [], ◌∷◌, refl}
use os_risc_v.LinkedList.{Ptr, Heap, del_list}
use os_risc_v.LinkedList.Ring.{IsRing}
use os_risc_v.LinkedList.Remove.{del_list-remove}

-- The list with head 1 and the nodes 2 and 3.
abbrev two : Heap
two = record {
  prev = λ a. if a == 1 then 3 else if a == 2 then 1 else if a == 3 then 2 else a;
  next = λ a. if a == 1 then 2 else if a == 2 then 3 else if a == 3 then 1 else a;
}

abbrev nodes : List Ptr
nodes = 2 ∷ 3 ∷ []

two-IsRing : IsRing two 1 (2 ∷ 3 ∷ [])
two-IsRing = record {
  chain = (refl, refl, (refl, refl, (refl, refl)));
  distinct = (refl, (refl, (refl, tt)));
}

del_list-remove_example : IsRing (del_list 2 two) 1 (3 ∷ []) × IsRing (del_list 2 two) 2 []
del_list-remove_example = del_list-remove two 1 2 [] (3 ∷ []) two-IsRing
