-- ===== src/NodeList/Rotation.antt =====
-- What the collector of runtime/ejs-gc.c does with a list of pages: it moves the head to the end, by
-- _ejs_list_pop_head and _ejs_list_append_node of runtime/ejs-types.c, and later detaches a page.
use echo_js.Base.{ℕ, ◌≡◌, ◌≢◌, ap, sym, ◌∙◌, List, ◌∷◌, arith}
use echo_js.NodeList.{NodeList, write, append_node, detach_node, pop_head}
use echo_js.NodeList.Linked.{last, IsList, last-ne}
use echo_js.NodeList.Changing.{last-All, Chain-nonzero}

abbrev pub rotated : NodeList → NodeList
rotated l = append_node (pop_head l) l.head

module _ (l : NodeList) (x y z t : ℕ) (hx : l.head ≡ x) (ht : l.tail ≡ t) (nx : l.next x ≡ y)
    (ny : l.next y ≡ z) (py : l.prev y ≡ x) (x0 : x ≢ 0) (y0 : y ≢ 0) (z0 : z ≢ 0) (t0 : t ≢ 0)
    (xy : y ≢ x) (xz : z ≢ x) (yz : z ≢ y) (tx : t ≢ x) (ty : t ≢ y) where
  abbrev popped : NodeList
  popped = record {
    head = l.next l.head;
    tail = l.tail;
    next = write l.next l.head 0;
    prev = write l.prev l.head 0;
  }

  popped_lem : pop_head l ≡ popped
  unfolding pop_head
  popped_lem = ground (arith, hx, ht, x0, tx)

  abbrev turned : NodeList
  turned = record {
    head = l.next l.head;
    tail = l.head;
    next = write (write (write l.next l.head 0) l.tail l.head) l.head 0;
    prev = write (write l.prev l.head 0) l.head l.tail;
  }

  turned_lem : rotated l ≡ turned
  unfolding append_node
  turned_lem = rw popped_lem (ground (arith, ht, t0))

  turned_next : turned.next y ≡ z
  turned_next = ground (arith, hx, ht, ny, xy, ty)

  turned_prev : turned.prev y ≡ x
  turned_prev = ground (arith, hx, py, xy)

  abbrev Ring : NodeList → Type 0
  Ring r = (r.head ≡ z) × (r.tail ≡ x) × (r.next r.tail ≡ r.head)

  cyclic :
      ((detach_node turned y).head ≡ z)
      × ((detach_node turned y).tail ≡ x)
      × ((detach_node turned y).next x ≡ z)
  unfolding detach_node
  cyclic = (
    ground (arith, turned_next, hx, nx),
    ground (arith, hx, xy),
    ground (arith, turned_next, turned_prev, z0, x0, xy, yz),
  )

  ring : Ring (detach_node (rotated l) y)
  ring =
      let (h, t, n) = cyclic in
      let r = detach_node turned y in rw turned_lem (h, t, ap r.next t ∙ n ∙ sym h)

-- After the head of a list of three nodes or more has been moved to the end, detaching the new head
-- closes the list to a ring: the last node leads to the first one, and is still the tail.
pub detach_node_closes_ring :
    (l : NodeList) (x y z : ℕ) (zs : List ℕ)
    → IsList l (x ∷ y ∷ z ∷ zs)
    → let r = detach_node (rotated l) y in (r.head ≡ z) × (r.tail ≡ x) × (r.next r.tail ≡ r.head)
detach_node_closes_ring l x y z zs v =
    let d = v.distinct in
    let c = v.chain in
    let t0 =
      last-All (λ a. a ≢ 0) z zs (Chain-nonzero l.next l.prev 0 l.head (x ∷ y ∷ z ∷ zs) 0 c).1.1 in
    ring l x y z (last z zs) c.0 v.at_end c.3.0 c.3.3.0 c.3.2 c.1 c.3.1 c.3.3.1 t0 d.0.0 d.0.1.0
      d.1.0.0 (last-ne x z zs d.0.1) (last-ne y z zs d.1.0)
