-- ===== src/Container/IntrusiveList.antt =====
-- container/src/list.c and container/include/coter/container/list.h: a list whose links stand in its
-- elements, closed into a ring by a head.
--
-- A node is known by its address. The links of all nodes are the store; each assignment of the code is
-- one write to it, in the order of the code.
pub mod Chain
pub mod Laws
use coter.Base.{ℕ, zero, suc, Bool, ◌==◌, if◌then◌else◌}

-- `struct ct_list` at every address
pub record Links : Type 0 where
  pub prev : ℕ → ℕ
  pub next : ℕ → ℕ

abbrev pub set_prev : Links → ℕ → ℕ → Links
set_prev s node v = record s { prev = λ i. if i == node then v else s.prev i }

abbrev pub set_next : Links → ℕ → ℕ → Links
set_next s node v = record s { next = λ i. if i == node then v else s.next i }

unfoldable pub init : Links → ℕ → Links
init s self = set_prev (set_next s self self) self self

abbrev pub is_empty : Links → ℕ → Bool
is_empty s head = s.next head == head

-- The loop of ct_list_size from a node on, for so many nodes at most.
unfoldable pub count_from : ℕ → Links → ℕ → ℕ → ℕ
count_from zero s head node = 0
count_from (suc fuel) s head node =
    let rest = count_from fuel s head (s.next node) in if node == head then 0 else suc rest

unfoldable pub size : ℕ → Links → ℕ → ℕ
unfolding count_from
size fuel s self = count_from fuel s self (s.next self)

-- `ct_list_before`, and ct_list_append for a head
unfoldable pub before : Links → ℕ → ℕ → Links
before s target node =
    let a = set_prev s node (s.prev target) in
    let b = set_next a node target in
    let c = set_next b (b.prev target) node in set_prev c target node

unfoldable pub append : Links → ℕ → ℕ → Links
unfolding before
append s self node = before s self node

-- `ct_list_after`, and ct_list_prepend for a head
unfoldable pub after : Links → ℕ → ℕ → Links
after s target node =
    let a = set_prev s node target in
    let b = set_next a node (a.next target) in
    let c = set_prev b (b.next target) node in set_next c target node

unfoldable pub prepend : Links → ℕ → ℕ → Links
unfolding after
prepend s self node = after s self node

unfoldable pub remove : Links → ℕ → Links
remove s node =
    let a = set_next s (s.prev node) (s.next node) in set_prev a (a.next node) (a.prev node)

unfoldable pub splice_prev : Links → ℕ → ℕ → Links
unfolding init
splice_prev s self list =
    let a = set_next s (s.prev list) (s.next self) in
    let b = set_prev a (a.next self) (a.prev list) in
    let c = set_prev b (b.next list) self in
    let d = set_next c self (c.next list) in if is_empty s list then s else init d list

unfoldable pub splice_next : Links → ℕ → ℕ → Links
unfolding init
splice_next s self list =
    let a = set_prev s (s.next list) (s.prev self) in
    let b = set_next a (a.prev self) (a.next list) in
    let c = set_next b (b.prev list) self in
    let d = set_prev c self (c.prev list) in if is_empty s list then s else init d list
