-- ===== src/NodeList.antt =====
-- The doubly linked lists of runtime/ejs-types.h and runtime/ejs-types.c, whose links stand in the
-- nodes. A node is its address, NULL is 0, and the links are two functions of the address.
pub mod Linked
pub mod Changing
pub mod Detaching
pub mod Counting
pub mod Rotation
use echo_js.Base.{
  ℕ, zero, suc, ◌+◌, ◌-◌, ◌^◌, ℤ, pos, negsuc, Bool, true, false, Option, none, some, ltb, ◌==◌,
  if◌then◌else◌,
}

-- the list, with the links of all nodes
pub record NodeList : Type 0 where
  pub head : ℕ
  pub tail : ℕ
  pub next : ℕ → ℕ
  pub prev : ℕ → ℕ

abbrev pub write : (ℕ → ℕ) → ℕ → ℕ → ℕ → ℕ
write f a v b = if b == a then v else f b

-- the empty case of the insertions
unfoldable pub only_node : NodeList → ℕ → NodeList
only_node list node = record {
  head = node;
  tail = node;
  next = write list.next node 0;
  prev = write list.prev node 0;
}

-- _ejs_list_append_node
unfoldable pub append_node : NodeList → ℕ → NodeList
unfolding only_node
append_node list node = if list.tail == 0 then only_node list node else record list {
  tail = node;
  next = write (write list.next list.tail node) node 0;
  prev = write list.prev node list.tail;
}

-- _ejs_list_prepend_node
unfoldable pub prepend_node : NodeList → ℕ → NodeList
unfolding only_node
prepend_node list node = if list.head == 0 then only_node list node else record list {
  head = node;
  next = write list.next node list.head;
  prev = write (write list.prev list.head node) node 0;
}

-- _ejs_list_detach_node
unfoldable pub detach_node : NodeList → ℕ → NodeList
detach_node list n =
    let after = list.next n in
    let prev = if after == 0 then list.prev else write list.prev after (list.prev n) in
    let next = if prev n == 0 then list.next else write list.next (prev n) after in
    record {
      head = if list.head == n then after else list.head;
      tail = if list.tail == n then list.prev n else list.tail;
      next = write next n 0;
      prev = write prev n 0;
    }

-- the loop of _ejs_list_insert_node_sorted, on fuel: the node to insert before, or NULL. `less` is
-- `compare (node, cur) < 0`
unfoldable pub find_place : (ℕ → ℕ → Bool) → ℕ → NodeList → ℕ → ℕ → Option ℕ
find_place less zero list node cur = none
find_place less (suc fuel) list node cur = elim (cur == 0) [
  | true ↦ some 0
  | false ↦ elim (less node cur) [
    | true ↦ some cur
    | false ↦ find_place less fuel list node (list.next cur)
  ]
]

-- its case of a place inside the list
unfoldable pub insert_before : NodeList → ℕ → ℕ → NodeList
insert_before list node cur =
    let before = list.prev cur in
    let prev = write list.prev node before in
    let next = write list.next node cur in
    let next' = if prev cur == 0 then next else write next (prev cur) node in
    record {
      head = if cur == list.head then node else list.head;
      tail = list.tail;
      next = next';
      prev = if next' cur == 0 then prev else write prev (next' cur) node;
    }

-- _ejs_list_insert_node_sorted
unfoldable pub insert_node_sorted : (ℕ → ℕ → Bool) → ℕ → NodeList → ℕ → Option NodeList
unfolding find_place insert_before append_node
insert_node_sorted less fuel list node =
    if list.head == 0
    then some (only_node list node)
    else elim (find_place less fuel list node list.head) [
      | none ↦ none
      | some cur ↦ some (if cur == 0 then append_node list node else insert_before list node cur)
    ]

-- _ejs_list_pop_head
unfoldable pub pop_head : NodeList → NodeList
pop_head list = if list.head == 0 then list else record {
  head = list.next list.head;
  tail = if list.head == list.tail then 0 else list.tail;
  next = write list.next list.head 0;
  prev = write list.prev list.head 0;
}

-- `len ++` on an int that wraps around
unfoldable pub next_int : ℤ → ℤ
next_int (pos n) = if ltb (n + 1) (2 ^ 31) then pos (n + 1) else negsuc (2 ^ 31 - 1)
next_int (negsuc zero) = pos 0
next_int (negsuc (suc n)) = negsuc n

-- the loop of _ejs_list_length, on fuel
unfoldable pub count_nodes : ℕ → NodeList → ℕ → ℤ → Option ℤ
unfolding next_int
count_nodes zero list el len = none
count_nodes (suc fuel) list el len = elim (el == 0) [
  | true ↦ some len
  | false ↦ count_nodes fuel list (list.next el) (next_int len)
]

-- _ejs_list_length
unfoldable pub list_length : ℕ → NodeList → Option ℤ
unfolding count_nodes
list_length fuel list = count_nodes fuel list list.head (pos 0)
