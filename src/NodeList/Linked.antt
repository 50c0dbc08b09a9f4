-- ===== src/NodeList/Linked.antt =====
-- When the nodes of runtime/ejs-types.c are linked to a list of addresses.
use echo_js.Base.{ℕ, ◌≡◌, ◌≢◌, refl, sym, ◌∙◌, List, [], ◌∷◌, ◌++◌, All, arith}
use echo_js.NodeList.{NodeList, write}

abbrev pub Apart : ℕ → List ℕ → Type 0
Apart a xs = All (λ x. x ≢ a) xs

abbrev pub Distinct : List ℕ → Type 0
Distinct [] = Unit
Distinct (x ∷ xs) = Apart x xs × Distinct xs

-- From the link `h` on, the nodes `xs` are linked in both directions: before them is `b`, behind
-- them `e`.
abbrev pub Chain : (ℕ → ℕ) → (ℕ → ℕ) → ℕ → ℕ → List ℕ → ℕ → Type 0
Chain next prev b h [] e = h ≡ e
Chain next prev b h (x ∷ xs) e = (h ≡ x) × (x ≢ 0) × (prev x ≡ b) × Chain next prev x (next x) xs e

-- the last of `xs`, or `b`
abbrev pub last : ℕ → List ℕ → ℕ
last b [] = b
last b (x ∷ xs) = last x xs

-- The list consists of the nodes `xs`.
pub record IsList (l : NodeList) (xs : List ℕ) : Type 0 where
  pub chain : Chain l.next l.prev 0 l.head xs 0
  pub at_end : l.tail ≡ last 0 xs
  pub distinct : Distinct xs

pub write_elsewhere : (f : ℕ → ℕ) (a v b : ℕ) → b ≢ a → write f a v b ≡ f b
write_elsewhere f a v b h = ground (arith, h)

pub write_here : (f : ℕ → ℕ) (a v : ℕ) → write f a v a ≡ v
write_here f a v = ground arith

module _ (next prev : ℕ → ℕ) where
  -- Links of other nodes may change.
  pub Chain-write_next :
      (b h : ℕ) (xs : List ℕ) (e a v : ℕ)
      → Apart a xs
      → Chain next prev b h xs e
      → Chain (write next a v) prev b h xs e
  Chain-write_next b h [] e a v p c = c
  Chain-write_next b h (x ∷ xs) e a v p c = (
    c.0,
    c.1,
    c.2,
    rw (write_elsewhere next a v x p.0) (Chain-write_next x (next x) xs e a v p.1 c.3),
  )

  pub Chain-write_prev :
      (b h : ℕ) (xs : List ℕ) (e a v : ℕ)
      → Apart a xs
      → Chain next prev b h xs e
      → Chain next (write prev a v) b h xs e
  Chain-write_prev b h [] e a v p c = c
  Chain-write_prev b h (x ∷ xs) e a v p c =
      (c.0, c.1, write_elsewhere prev a v x p.0 ∙ c.2, Chain-write_prev x (next x) xs e a v p.1 c.3)

  -- A new link back from the first node.
  pub Chain-new_prev :
      (b h x : ℕ) (xs : List ℕ) (e v : ℕ)
      → Apart x xs
      → Chain next prev b h (x ∷ xs) e
      → Chain next (write prev x v) v h (x ∷ xs) e
  Chain-new_prev b h x xs e v p c =
      (c.0, c.1, write_here prev x v, Chain-write_prev x (next x) xs e x v p c.3)

pub last-ne : (a x : ℕ) (xs : List ℕ) → Apart a (x ∷ xs) → last x xs ≢ a
last-ne a x [] p = p.0
last-ne a x (y ∷ ys) p = last-ne a y ys p.1

-- A new link from the last node.
pub Chain-new_next :
    (next prev : ℕ → ℕ) (b h x : ℕ) (xs : List ℕ) (e v : ℕ)
    → Distinct (x ∷ xs)
    → Chain next prev b h (x ∷ xs) e
    → Chain (write next (last x xs) v) prev b h (x ∷ xs) v
Chain-new_next next prev b h x [] e v d c = (c.0, c.1, c.2, write_here next x v)
Chain-new_next next prev b h x (y ∷ ys) e v d c = (
  c.0,
  c.1,
  c.2,
  rw (write_elsewhere next (last y ys) v x (λ q. last-ne x y ys d.0 (sym q)))
      (Chain-new_next next prev x (next x) y ys e v d.1 c.3),
)

pub Chain-append :
    (next prev : ℕ → ℕ) (b h : ℕ) (xs ys : List ℕ) (m e : ℕ)
    → Chain next prev b h xs m
    → Chain next prev (last b xs) m ys e
    → Chain next prev b h (xs ++ ys) e
Chain-append next prev b h [] ys m e c d = rw (c) d
Chain-append next prev b h (x ∷ xs) ys m e c d =
    (c.0, c.1, c.2, Chain-append next prev x (next x) xs ys m e c.3 d)

pub Chain-split :
    (next prev : ℕ → ℕ) (b h : ℕ) (xs ys : List ℕ) (e : ℕ)
    → Chain next prev b h (xs ++ ys) e
    → (m : ℕ) × Chain next prev b h xs m × Chain next prev (last b xs) m ys e
Chain-split next prev b h [] ys e c = (h, refl, c)
Chain-split next prev b h (x ∷ xs) ys e c =
    let (m, p, q) = Chain-split next prev x (next x) xs ys e c.3 in (m, (c.0, c.1, c.2, p), q)
