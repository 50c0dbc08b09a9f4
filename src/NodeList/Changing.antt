-- ===== src/NodeList/Changing.antt =====
-- The operations of runtime/ejs-types.c on the list of the nodes.
use mathlib.Core.Path.{subst}
use echo_js.Base.{ℕ, ◌≡◌, ◌≢◌, refl, sym, ◌∙◌, List, [], ◌∷◌, ◌++◌, All, All-map, arith}
use echo_js.NodeList.{NodeList, write, only_node, append_node, prepend_node}
use echo_js.NodeList.Linked.{
  Apart, Distinct, Chain, last, IsList, write_here, Chain-write_next, Chain-write_prev,
  Chain-new_prev, Chain-new_next, Chain-append,
}

pub Distinct-append :
    (xs ys : List ℕ) → Distinct (xs ++ ys) → Distinct xs × Distinct ys × All (λ x. Apart x ys) xs
Distinct-append [] ys d = (tt, d, tt)
Distinct-append (x ∷ xs) ys d =
    let (p, q, r) = Distinct-append xs ys d.1 in let (u, v) = parts xs d.0 in ((u, p), q, (v, r))
  where
    parts : (zs : List ℕ) → Apart x (zs ++ ys) → Apart x zs × Apart x ys
    parts [] h = (tt, h)
    parts (z ∷ zs) h = let (u, v) = parts zs h.1 in ((h.0, u), v)

pub joined-Distinct :
    (xs ys : List ℕ) → Distinct xs → Distinct ys → All (λ x. Apart x ys) xs → Distinct (xs ++ ys)
joined-Distinct [] ys p q r = q
joined-Distinct (x ∷ xs) ys p q r = (both xs p.0, joined-Distinct xs ys p.1 q r.1)
  where
    both : (zs : List ℕ) → Apart x zs → Apart x (zs ++ ys)
    both [] h = r.0
    both (z ∷ zs) h = (h.0, both zs h.1)

-- The last of a list that is not empty is one of its nodes.
pub last-All : (P : ℕ → Type 0) (x : ℕ) (xs : List ℕ) → All P (x ∷ xs) → P (last x xs)
last-All P x [] h = h.0
last-All P x (y ∷ ys) h = last-All P y ys h.1

pub last_append : (b x : ℕ) (xs : List ℕ) → last b (xs ++ x ∷ []) ≡ x
last_append b x [] = refl
last_append b x (y ∷ ys) = last_append y x ys

pub Chain-nonzero :
    (next prev : ℕ → ℕ) (b h : ℕ) (xs : List ℕ) (e : ℕ)
    → Chain next prev b h xs e
    → All (λ x. x ≢ 0) xs
Chain-nonzero next prev b h [] e c = tt
Chain-nonzero next prev b h (x ∷ xs) e c = (c.1, Chain-nonzero next prev x (next x) xs e c.3)

module _ (node : ℕ) (nonzero : node ≢ 0) where
  only_node-IsList : (l : NodeList) → IsList (only_node l node) (node ∷ [])
  unfolding only_node
  only_node-IsList l = record {
    chain = (refl, nonzero, write_here l.prev node 0, write_here l.next node 0);
    at_end = refl;
    distinct = (tt, tt);
  }

  -- the list with the node behind the node `t`
  abbrev appended : NodeList → ℕ → NodeList
  appended l t = record {
    head = l.head;
    tail = node;
    next = write (write l.next t node) node 0;
    prev = write l.prev node t;
  }

  appended-IsList :
      (l : NodeList) (x : ℕ) (xs : List ℕ)
      → IsList l (x ∷ xs)
      → Apart node (x ∷ xs)
      → IsList (appended l (last x xs)) ((x ∷ xs) ++ node ∷ [])
  appended-IsList l x xs v p = record {
    chain =
        Chain-append (write (write l.next (last x xs) node) node 0) (write l.prev node (last x xs))
          0 l.head (x ∷ xs) (node ∷ []) node 0
          (Chain-write_next (write l.next (last x xs) node) (write l.prev node (last x xs)) 0 l.head
            (x ∷ xs) node node 0 p
            (Chain-write_prev (write l.next (last x xs) node) l.prev 0 l.head (x ∷ xs) node node
              (last x xs) p (Chain-new_next l.next l.prev 0 l.head x xs 0 node v.distinct v.chain)))
          (
            refl,
            nonzero,
            write_here l.prev node (last x xs),
            write_here (write l.next (last x xs) node) node 0,
          );
    at_end = sym (last_append x node xs);
    distinct =
        joined-Distinct (x ∷ xs) (node ∷ []) v.distinct (tt, tt)
          (All-map (λ y. y ≢ node) (λ y. Apart y (node ∷ [])) (x ∷ xs)
            (λ y h. ((λ e. h (sym e)), tt)) p);
  }

  append_empty : (l : NodeList) → l.tail ≡ 0 → append_node l node ≡ only_node l node
  unfolding append_node
  append_empty l e = ground (arith, e)

  append_filled : (l : NodeList) → l.tail ≢ 0 → append_node l node ≡ appended l l.tail
  unfolding append_node
  append_filled l e = ground (arith, e)

  -- A node that is not in the list is appended behind the nodes that are.
  append_node-IsList :
      (l : NodeList) (xs : List ℕ)
      → IsList l xs
      → Apart node xs
      → IsList (append_node l node) (xs ++ node ∷ [])
  append_node-IsList l [] v p = rw (append_empty l v.at_end) (only_node-IsList l)
  append_node-IsList l (x ∷ xs) v p =
      let filled : l.tail ≢ 0 = λ e.
        last-All (λ y. y ≢ 0) x xs (Chain-nonzero l.next l.prev 0 l.head (x ∷ xs) 0 v.chain)
          (sym v.at_end ∙ e) in
      rw (append_filled l filled) (
        subst (λ t. IsList (appended l t) ((x ∷ xs) ++ node ∷ [])) (sym v.at_end)
          (appended-IsList l x xs v p))

  abbrev prepended : NodeList → ℕ → NodeList
  prepended l h = record {
    head = node;
    tail = l.tail;
    next = write l.next node h;
    prev = write (write l.prev h node) node 0;
  }

  prepended-IsList :
      (l : NodeList) (x : ℕ) (xs : List ℕ)
      → IsList l (x ∷ xs)
      → Apart node (x ∷ xs)
      → IsList (prepended l x) (node ∷ x ∷ xs)
  prepended-IsList l x xs v p = record {
    chain =
        let c =
          Chain-write_next l.next (write (write l.prev x node) node 0) node l.head (x ∷ xs) 0 node x
            p
            (Chain-write_prev l.next (write l.prev x node) node l.head (x ∷ xs) 0 node 0 p
              (Chain-new_prev l.next l.prev 0 l.head x xs 0 node v.distinct.0 v.chain)) in
        (
          refl,
          nonzero,
          write_here (write l.prev x node) node 0,
          (write_here l.next node x, c.1, c.2, c.3),
        );
    at_end = v.at_end;
    distinct = (p, v.distinct);
  }

  prepend_empty : (l : NodeList) → l.head ≡ 0 → prepend_node l node ≡ only_node l node
  unfolding prepend_node
  prepend_empty l e = ground (arith, e)

  prepend_filled : (l : NodeList) → l.head ≢ 0 → prepend_node l node ≡ prepended l l.head
  unfolding prepend_node
  prepend_filled l e = ground (arith, e)

  -- A node that is not in the list is put in front of the nodes that are.
  prepend_node-IsList :
      (l : NodeList) (xs : List ℕ)
      → IsList l xs
      → Apart node xs
      → IsList (prepend_node l node) (node ∷ xs)
  prepend_node-IsList l [] v p = rw (prepend_empty l v.chain) (only_node-IsList l)
  prepend_node-IsList l (x ∷ xs) v p =
      let filled : l.head ≢ 0 = λ e. v.chain.1 (sym v.chain.0 ∙ e) in
      rw (prepend_filled l filled) (
        subst (λ h. IsList (prepended l h) (node ∷ x ∷ xs)) (sym v.chain.0)
          (prepended-IsList l x xs v p))
