-- ===== src/Tests/Nodes.antt =====
-- The linked lists of runtime/ejs-types.c at a few nodes.
use echo_js.Base.{ℕ, ◌≡◌, refl, List, [], ◌∷◌, ◌++◌, Option, none, some, pos, ltb, arith}
use echo_js.NodeList.{
  NodeList, only_node, append_node, prepend_node, detach_node, find_place, insert_before,
  insert_node_sorted, pop_head, next_int, count_nodes, list_length,
}
use echo_js.NodeList.Linked.{IsList}
use echo_js.NodeList.Detaching.{detach_node-IsList}
use echo_js.NodeList.Counting.{list_length-length}
use echo_js.NodeList.Rotation.{rotated, detach_node_closes_ring}

-- every function on lists
unfoldable listing : Unit {0}
unfolding only_node append_node prepend_node detach_node find_place insert_before insert_node_sorted
    pop_head next_int count_nodes list_length
listing = tt

abbrev no_nodes : NodeList
no_nodes = record { head = 0; tail = 0; next = λ a. 0; prev = λ a. 0 }

-- the nodes 16, 32 and 48
abbrev three_nodes : NodeList
three_nodes = append_node (append_node (append_node no_nodes 16) 32) 48

three_nodes-IsList : IsList three_nodes (16 ∷ 32 ∷ 48 ∷ [])
unfolding listing
three_nodes-IsList = record { chain = omega arith; at_end = refl; distinct = omega arith }

detach_node-IsList_example : IsList (detach_node three_nodes 32) ((16 ∷ []) ++ 48 ∷ [])
detach_node-IsList_example =
    detach_node-IsList three_nodes 32 (16 ∷ []) (48 ∷ []) three_nodes-IsList

list_length-length_example : list_length 4 three_nodes ≡ some (pos 3)
list_length-length_example =
    list_length-length three_nodes (16 ∷ 32 ∷ 48 ∷ []) 4 three_nodes-IsList (omega arith)
      (omega arith)

-- A node that is inserted between 16 and 32 is skipped on the way back, and 48 leads back to it.
abbrev links_back : Option NodeList → List ℕ
links_back none = []
links_back (some l) = l.prev 24 ∷ l.prev 32 ∷ l.prev 48 ∷ []

inserted_test : links_back (insert_node_sorted ltb 9 three_nodes 24) ≡ 16 ∷ 16 ∷ 24 ∷ []
unfolding listing
inserted_test = refl

-- The new head leads back to the old one.
popped_test : (pop_head three_nodes).prev 32 ≡ 16
unfolding listing
popped_test = refl

detach_node_closes_ring_example :
    let r = detach_node (rotated three_nodes) 32 in
    (r.head ≡ 48) × (r.tail ≡ 16) × (r.next r.tail ≡ r.head)
detach_node_closes_ring_example = detach_node_closes_ring three_nodes 16 32 48 [] three_nodes-IsList

-- The walk along the ring does not end.
ring_test : list_length 200 (detach_node (rotated three_nodes) 32) ≡ none
unfolding listing
ring_test = refl
