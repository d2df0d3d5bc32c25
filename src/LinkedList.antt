-- ===== src/LinkedList.antt =====
-- The intrusive circular lists of os/kernel/include/list.h over an explicit heap.
-- A `Heap` gives the `prev` and the `next` field of every list node; a node is an address.
pub mod Ring
mod Insert
mod Remove
mod Tests
use os_risc_v.Prelude.{ℕ, Bool, ◌&&◌, ◌==◌, if◌then◌else◌}

abbrev pub Ptr : Type 0
Ptr = ℕ

pub record Heap : Type 0 where
  pub prev : Ptr → Ptr
  pub next : Ptr → Ptr

-- One field of one node is written.
unfoldable pub set_next : Ptr → Ptr → Heap → Heap
set_next l q h = record h { next = λ a. if a == l then q else h.next a }

unfoldable pub set_prev : Ptr → Ptr → Heap → Heap
set_prev l q h = record h { prev = λ a. if a == l then q else h.prev a }

unfoldable pub init_list : Ptr → Heap → Heap
unfolding set_next set_prev
init_list l h = set_prev l l (set_next l l h)

-- The four writes of the source in their order; each reads the heap that the last one left.
unfoldable pub add_after : Ptr → Ptr → Heap → Heap
unfolding set_next set_prev
add_after l newl h =
    let h1 = set_next newl (h.next l) h in
    let h2 = set_prev newl l h1 in let h3 = set_prev (h2.next l) newl h2 in set_next l newl h3

unfoldable pub add_before : Ptr → Ptr → Heap → Heap
unfolding add_after
add_before l newl h = add_after (h.prev l) newl h

unfoldable pub add_list : Ptr → Ptr → Heap → Heap
unfolding add_after
add_list l newl h = add_after l newl h

unfoldable pub del_list : Ptr → Heap → Heap
unfolding set_next set_prev init_list
del_list del h =
    let h1 = set_next (h.prev del) (h.next del) h in
    let h2 = set_prev (h1.next del) (h1.prev del) h1 in init_list del h2

unfoldable pub is_empty_list : Ptr → Heap → Bool
is_empty_list l h = (h.next l == l) && (h.prev l == l)
