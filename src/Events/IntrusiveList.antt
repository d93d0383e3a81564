-- ===== src/Events/IntrusiveList.antt =====
-- src/util/isz_list.h: a doubly linked list through nodes in its elements, closed to a ring by a head.
-- A node is its address; the memory maps an address to the node there.
pub mod Ring
pub mod Refines
use ishizue.Base.{ℕ, ◌==◌, Bool, true, false, Option, none, some, if◌then◌else◌}

-- `isz_list_node`.
pub record Node : Type 0 where
  pub prev : ℕ
  pub next : ℕ

abbrev pub Memory : Type 0
Memory = ℕ → Node

-- The stores `p->next = n` and `p->prev = n`.
abbrev pub set_next : Memory → ℕ → ℕ → Memory
set_next h p n = λ x. if x == p then record (h x) { next = n } else h x

abbrev pub set_prev : Memory → ℕ → ℕ → Memory
set_prev h p n = λ x. if x == p then record (h x) { prev = n } else h x

-- `isz_list_init`, `isz_list_empty`.
unfoldable pub init_list : Memory → ℕ → Memory
init_list h l = set_next (set_prev h l l) l l

unfoldable pub is_empty : Memory → ℕ → Bool
is_empty h l = (h l).next == l

-- `isz_list_insert`.
unfoldable pub insert : Memory → ℕ → ℕ → ℕ → Memory
insert h n prev next = set_next (set_prev (set_prev (set_next h prev n) next n) n prev) n next

-- `isz_list_push_back`, `isz_list_push_front`.
unfoldable pub push_back : Memory → ℕ → ℕ → Memory
push_back h l n = insert h n (h l).prev l

unfoldable pub push_front : Memory → ℕ → ℕ → Memory
push_front h l n = insert h n l (h l).next

-- `isz_list_remove`: each store reads the memory that the one before has left.
unfoldable pub remove : Memory → ℕ → Memory
remove h n =
    let out = set_next h (h n).prev (h n).next in
    let joined = set_prev out (out n).next (out n).prev in set_next (set_prev joined n n) n n

-- `isz_list_pop_front`.
unfoldable pub pop_front : Memory → ℕ → Option ℕ × Memory
pop_front h l = if is_empty h l then (none, h) else (some (h l).next, remove h (h l).next)
