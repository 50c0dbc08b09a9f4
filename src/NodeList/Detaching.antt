-- ===== src/NodeList/Detaching.antt =====
-- _ejs_list_detach_node of runtime/ejs-types.c on the list of the nodes.
use mathlib.Core.Path.{subst}
use echo_js.Base.{
  All-map, ℕ, ◌≡◌, ◌≢◌, refl, ap, sym, ◌∙◌, List, [], ◌∷◌, ◌++◌, All, Bool, false, Bool-cases, inl,
  inr, ◌==◌, ==_false, if◌then◌else◌, arith,
}
use echo_js.NodeList.{NodeList, write, detach_node}
use echo_js.NodeList.Linked.{
  Apart, Distinct, Chain, last, IsList, Chain-write_next, Chain-write_prev, Chain-new_prev,
  Chain-new_next, last-ne, Chain-append, Chain-split,
}
use echo_js.NodeList.Changing.{Distinct-append, joined-Distinct, last-All, Chain-nonzero}

-- The part in front of a node that is taken out, and the part behind it.
module _ (next prev : ℕ → ℕ) where
  front :
      (head n after m : ℕ) (xs : List ℕ)
      → Chain next prev 0 head xs m
      → m ≡ n
      → Distinct xs
      → Apart n xs
      → Chain
          (if last 0 xs == 0 then next else write next (last 0 xs) after)
          prev
          0
          (if head == n then after else head)
          xs
          after
  front head n after m [] c e d p = ground (arith, c, e)
  front head n after m (x ∷ xs) c e d p =
      let filled : (last x xs == 0) ≡ false =
        ==_false (last x xs) 0
          (last-All (λ y. y ≢ 0) x xs (Chain-nonzero next prev 0 head (x ∷ xs) m c)) in
      let other : (head == n) ≡ false = ==_false head n (λ q. p.0 (sym c.0 ∙ q)) in
      let links = ap (λ (b : Bool). if b then next else write next (last x xs) after) filled in
      let first = ap (λ (b : Bool). if b then after else head) other in
      subst
        (λ h.
          Chain (if last x xs == 0 then next else write next (last x xs) after) prev 0 h (x ∷ xs)
            after)
        (sym first)
        (subst (λ f. Chain f prev 0 head (x ∷ xs) after) (sym links)
          (Chain-new_next next prev 0 head x xs m after d c))

  back :
      (n after v : ℕ) (xs : List ℕ)
      → Chain next prev n after xs 0
      → Distinct xs
      → Chain next (if after == 0 then prev else write prev after v) v after xs 0
  back n after v [] c d = c
  back n after v (x ∷ xs) c d =
      let filled : (after == 0) ≡ false = ==_false after 0 (λ q. c.1 (sym c.0 ∙ q)) in
      let links = ap (λ (b : Bool). if b then prev else write prev after v) filled in
      subst (λ f. Chain next f v after (x ∷ xs) 0) (sym links)
        (subst (λ a. Chain next (write prev a v) v after (x ∷ xs) 0) (sym c.0)
          (Chain-new_prev next prev n after x xs 0 v d.0 c))

  -- Links of other nodes that may change.
  Chain-if_next :
      (b h : ℕ) (xs : List ℕ) (e a v : ℕ)
      → (a ≢ 0 → Apart a xs)
      → Chain next prev b h xs e
      → Chain (if a == 0 then next else write next a v) prev b h xs e
  Chain-if_next b h xs e a v p c = elim (Bool-cases (a == 0)) [
    | inl null ↦ rw (null) c
    | inr node ↦ rw (node) (Chain-write_next next prev b h xs e a v (p (ground (arith, node))) c)
  ]

  Chain-if_prev :
      (b h : ℕ) (xs : List ℕ) (e a v : ℕ)
      → (a ≢ 0 → Apart a xs)
      → Chain next prev b h xs e
      → Chain next (if a == 0 then prev else write prev a v) b h xs e
  Chain-if_prev b h xs e a v p c = elim (Bool-cases (a == 0)) [
    | inl null ↦ rw (null) c
    | inr node ↦ rw (node) (Chain-write_prev next prev b h xs e a v (p (ground (arith, node))) c)
  ]

-- The list without the node `n`, whose neighbours are `p` and `after`.
abbrev detached : NodeList → ℕ → ℕ → ℕ → NodeList
detached l n p after = record {
  head = if l.head == n then after else l.head;
  tail = if l.tail == n then p else l.tail;
  next = write (if p == 0 then l.next else write l.next p after) n 0;
  prev = write (if after == 0 then l.prev else write l.prev after p) n 0;
}

detach_runs :
    (l : NodeList) (n : ℕ) → l.next n ≢ n → detach_node l n ≡ detached l n (l.prev n) (l.next n)
unfolding detach_node
detach_runs l n h =
    let stays : (if l.next n == 0 then l.prev else write l.prev (l.next n) (l.prev n)) n
        ≡ l.prev n =
      ground (arith, h) in
    ap
      (λ (p : ℕ). record {
        head = if l.head == n then l.next n else l.head;
        tail = if l.tail == n then l.prev n else l.tail;
        next = write (if p == 0 then l.next else write l.next p (l.next n)) n 0;
        prev = write (if l.next n == 0 then l.prev else write l.prev (l.next n) (l.prev n)) n 0;
      })
      stays

last_of_append : (b n : ℕ) (xs ys : List ℕ) → last b (xs ++ n ∷ ys) ≡ last n ys
last_of_append b n [] ys = refl
last_of_append b n (x ∷ xs) ys = last_of_append x n xs ys

last_append_nil : (b : ℕ) (xs : List ℕ) → last b xs ≡ last b (xs ++ [])
last_append_nil b [] = refl
last_append_nil b (x ∷ xs) = last_append_nil x xs

new_tail :
    (t n : ℕ) (xs ys : List ℕ)
    → t ≡ last 0 (xs ++ n ∷ ys)
    → Apart n ys
    → (if t == n then last 0 xs else t) ≡ last 0 (xs ++ ys)
new_tail t n xs [] e p =
    let same : t ≡ n = e ∙ last_of_append 0 n xs [] in ground (arith, same, last_append_nil 0 xs)
new_tail t n xs (y ∷ ys) e p =
    let same : t ≡ last y ys = e ∙ last_of_append 0 n xs (y ∷ ys) in
    let other : (t == n) ≡ false = ==_false t n (λ q. last-ne n y ys p (sym same ∙ q)) in
    rw (other) (same ∙ sym (last_of_append 0 y xs ys))

after-Apart :
    (next prev : ℕ → ℕ) (n after : ℕ) (xs ys : List ℕ)
    → Chain next prev n after ys 0
    → All (λ x. Apart x (n ∷ ys)) xs
    → after ≢ 0
    → Apart after xs
after-Apart next prev n after xs [] c r h = absurd (h c)
after-Apart next prev n after xs (y ∷ ys) c r h =
    All-map (λ x. Apart x (n ∷ y ∷ ys)) (λ x. x ≢ after) xs (λ x p e. p.1.0 (sym c.0 ∙ sym e)) r

last-Apart :
    (n : ℕ) (xs ys : List ℕ) → All (λ x. Apart x (n ∷ ys)) xs → last 0 xs ≢ 0 → Apart (last 0 xs) ys
last-Apart n [] ys r h = absurd (h refl)
last-Apart n (x ∷ xs) ys r h = (last-All (λ y. Apart y (n ∷ ys)) x xs r).1

next-ne :
    (next prev : ℕ → ℕ) (n : ℕ) (ys : List ℕ)
    → n ≢ 0
    → Apart n ys
    → Chain next prev n (next n) ys 0
    → next n ≢ n
next-ne next prev n [] nz p c e = nz (sym e ∙ c)
next-ne next prev n (y ∷ ys) nz p c e = p.0 (sym c.0 ∙ e)

module _ (l : NodeList) (n : ℕ) (xs ys : List ℕ) (v : IsList l (xs ++ n ∷ ys)) where
  abbrev without : NodeList
  without = detached l n (last 0 xs) (l.next n)

  without-IsList :
      (m : ℕ)
      → Chain l.next l.prev 0 l.head xs m
      → Chain l.next l.prev (last 0 xs) m (n ∷ ys) 0
      → IsList without (xs ++ ys)
  without-IsList m A B =
      let (sx, sy, cross) = Distinct-append xs (n ∷ ys) v.distinct in
      let after = l.next n in
      let p = last 0 xs in
      let apart : Apart n xs =
        All-map (λ x. Apart x (n ∷ ys)) (λ x. x ≢ n) xs (λ x h e. h.0 (sym e)) cross in
      let next1 : ℕ → ℕ = if p == 0 then l.next else write l.next p after in
      let prev1 : ℕ → ℕ = if after == 0 then l.prev else write l.prev after p in
      let first = if l.head == n then after else l.head in
      record {
        chain =
            Chain-append without.next without.prev 0 first xs ys after 0
              (Chain-write_next next1 without.prev 0 first xs after n 0 apart (
                Chain-write_prev next1 prev1 0 first xs after n 0 apart (
                  Chain-if_prev next1 l.prev 0 first xs after after p
                    (after-Apart l.next l.prev n after xs ys B.3 cross)
                    (front l.next l.prev l.head n after m xs A B.0 sx apart))))
              (Chain-write_next next1 without.prev p after ys 0 n 0 sy.0 (
                Chain-write_prev next1 prev1 p after ys 0 n 0 sy.0 (
                  Chain-if_next l.next prev1 p after ys 0 p after (last-Apart n xs ys cross)
                    (back l.next l.prev n after p ys B.3 sy.1))));
        at_end = new_tail l.tail n xs ys v.at_end sy.0;
        distinct =
            joined-Distinct xs ys sx sy.1
              (All-map (λ x. Apart x (n ∷ ys)) (λ x. Apart x ys) xs (λ x h. h.1) cross);
      }

-- A node of the list, wherever it stands, is taken out, and the others stay linked in their order.
pub detach_node-IsList :
    (l : NodeList) (n : ℕ) (xs ys : List ℕ)
    → IsList l (xs ++ n ∷ ys)
    → IsList (detach_node l n) (xs ++ ys)
detach_node-IsList l n xs ys v =
    let (m, a, b) = Chain-split l.next l.prev 0 l.head xs (n ∷ ys) 0 v.chain in
    let apart = (Distinct-append xs (n ∷ ys) v.distinct).1.0 in
    rw (detach_runs l n (next-ne l.next l.prev n ys b.1 apart b.3)) (
      subst (λ p. IsList (detached l n p (l.next n)) (xs ++ ys)) (sym b.2)
        (without-IsList l n xs ys v m a b))
