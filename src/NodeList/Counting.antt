-- ===== src/NodeList/Counting.antt =====
-- The loop of _ejs_list_length of runtime/ejs-types.c.
use echo_js.Base.{
  ℕ, zero, suc, ◌+◌, ◌^◌, ◌<◌, ◌≡◌, ◌≢◌, ap, ◌∙◌, ℤ, pos, List, [], ◌∷◌, length, some, arith,
}
use echo_js.NodeList.{NodeList, next_int, count_nodes, list_length}
use echo_js.NodeList.Linked.{Chain, IsList}

next_int_below : (n : ℕ) → n + 1 < 2 ^ 31 → next_int (pos n) ≡ pos (n + 1)
unfolding next_int
next_int_below n h = ground (arith, h)

module _ (l : NodeList) where
  at_null : (fuel h : ℕ) (len : ℤ) → h ≡ 0 → count_nodes (suc fuel) l h len ≡ some len
  unfolding count_nodes
  at_null fuel h len e = ground (arith, e)

  at_node :
      (fuel h x : ℕ) (len : ℤ)
      → h ≡ x
      → x ≢ 0
      → count_nodes (suc fuel) l h len ≡ count_nodes fuel l (l.next x) (next_int len)
  unfolding count_nodes
  at_node fuel h x len e f = ground (arith, e, f)

  count_nodes_all :
      (fuel b h len : ℕ) (xs : List ℕ)
      → Chain l.next l.prev b h xs 0
      → length xs < fuel
      → len + length xs < 2 ^ 31
      → count_nodes fuel l h (pos len) ≡ some (pos (len + length xs))
  count_nodes_all zero b h len xs c k small = absurd (omega arith)
  count_nodes_all (suc fuel) b h len [] c k small =
      at_null fuel h (pos len) c ∙ ap (λ n. some (pos n)) (omega arith)
  count_nodes_all (suc fuel) b h len (x ∷ xs) c k small =
      at_node fuel h x (pos len) c.0 c.1
      ∙ ap (count_nodes fuel l (l.next x)) (next_int_below len (omega arith))
      ∙ count_nodes_all fuel x (l.next x) (len + 1) xs c.3 (omega arith) (omega arith)
      ∙ ap (λ n. some (pos n)) (omega arith)

-- On a linked list of fewer than 2 ^ 31 nodes, the walk ends, on more fuel than the list has nodes,
-- and the int that it returns is the number of the nodes.
pub list_length-length :
    (l : NodeList) (xs : List ℕ) (fuel : ℕ)
    → IsList l xs
    → length xs < fuel
    → length xs < 2 ^ 31
    → list_length fuel l ≡ some (pos (length xs))
unfolding list_length
list_length-length l xs fuel v k small =
    count_nodes_all l fuel 0 l.head 0 xs v.chain k (omega arith)
    ∙ ap (λ n. some (pos n)) (omega arith)
