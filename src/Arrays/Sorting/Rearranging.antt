-- ===== src/Arrays/Sorting/Rearranging.antt =====
-- Rearrangements of the words of a buffer, and swap_dense of runtime/ejs-array.c as one.
use echo_js.Base.{
  ℕ, ◌≤◌, ◌<◌, ◌≡◌, refl, ap, ◌∙◌, ◌⊎◌, inl, inr, true, ok, ◌==◌, if◌then◌else◌, leb, ltb, ◌&&◌,
  Bool-cases, arith,
}
use echo_js.Arrays.{EjsArray, load, swap_dense}
use echo_js.Arrays.Elements.Slots.{store-Rewritten}

-- The memory `g` is `f` with its words between `lo` and `hi` in another order: a bijection of the
-- indices, which leaves the others alone.
pub record Rearranged (f g : ℕ → ℕ) (lo hi : ℕ) : Type 0 where
  pub from : ℕ → ℕ
  pub to : ℕ → ℕ
  pub words : (i : ℕ) → g i ≡ f (from i)
  pub from_to : (i : ℕ) → from (to i) ≡ i
  pub to_from : (i : ℕ) → to (from i) ≡ i
  pub inside : (i : ℕ) → lo ≤ i → i < hi → (lo ≤ from i) × (from i < hi)
  pub outside : (i : ℕ) → (i < lo) ⊎ (hi ≤ i) → from i ≡ i

pub unmoved : (f : ℕ → ℕ) (lo hi : ℕ) → Rearranged f f lo hi
unmoved f lo hi = record {
  from = λ i. i;
  to = λ i. i;
  words = λ i. refl;
  from_to = λ i. refl;
  to_from = λ i. refl;
  inside = λ i h k. (h, k);
  outside = λ i h. refl;
}

pub Rearranged-trans :
    (f g h : ℕ → ℕ) (lo hi : ℕ) → Rearranged f g lo hi → Rearranged g h lo hi → Rearranged f h lo hi
Rearranged-trans f g h lo hi r s = record {
  from = λ i. r.from (s.from i);
  to = λ i. s.to (r.to i);
  words = λ i. s.words i ∙ r.words (s.from i);
  from_to = λ i. ap r.from (s.from_to (r.to i)) ∙ r.from_to i;
  to_from = λ i. ap s.to (r.to_from (s.from i)) ∙ s.to_from i;
  inside = λ i p q. let (x, y) = s.inside i p q in r.inside (s.from i) x y;
  outside = λ i p. ap r.from (s.outside i p) ∙ r.outside i p;
}

-- A rearrangement of a part is one of the whole.
pub widened :
    (f g : ℕ → ℕ) (lo hi low high : ℕ)
    → low ≤ lo
    → hi ≤ high
    → Rearranged f g lo hi
    → Rearranged f g low high
widened f g lo hi low high l h r = record {
  from = r.from;
  to = r.to;
  words = r.words;
  from_to = r.from_to;
  to_from = r.to_from;
  inside = λ i p q. elim (Bool-cases (leb lo i && ltb i hi)) [
    | inl within ↦
        let (x, y) = r.inside i (ground (arith, within)) (ground (arith, within)) in
        (omega arith, omega arith)
    | inr not_within ↦
        let same : r.from i ≡ i = r.outside i (ground (arith, not_within)) in
        (omega arith, omega arith)
  ];
  outside = λ i p. r.outside i (ground arith);
}

abbrev pub transposed : ℕ → ℕ → ℕ → ℕ
transposed x y i = if i == y then x else if i == x then y else i

transposed_twice : (x y i : ℕ) → transposed x y (transposed x y i) ≡ i
transposed_twice x y i = ground arith

-- `b` is `a` with two words swapped.
pub record Swapped (a b : EjsArray) (x y : ℕ) : Type 0 where
  pub is_dense : b.dense ≡ true
  pub same_alloc : b.array_alloc ≡ a.array_alloc
  pub same_length : b.array_length ≡ a.array_length
  pub words : (i : ℕ) → b.elements i ≡ a.elements (transposed x y i)

pub load_lem :
    (a : EjsArray) (i : ℕ) → a.dense ≡ true → i < a.array_alloc → load a i ≡ ok (a.elements i)
unfolding load
load_lem a i d h = ground arith

pub swap_dense-Swapped :
    (a : EjsArray) (x y : ℕ)
    → a.dense ≡ true
    → x < a.array_alloc
    → y < a.array_alloc
    → (b : EjsArray) × (swap_dense a x y ≡ ok b) × Swapped a b x y
unfolding swap_dense
swap_dense-Swapped a x y d h k =
    let (b, e, r) = store-Rewritten a x (a.elements y) d h in
    let (c, f, q) = store-Rewritten b y (a.elements x) r.is_dense (omega (arith, r.same_alloc)) in
    (
      c,
      rw (load_lem a x d h, load_lem a y d k, e) f,
      record {
        is_dense = q.is_dense;
        same_alloc = q.same_alloc ∙ r.same_alloc;
        same_length = q.same_length ∙ r.same_length;
        words = λ i. ground (arith, q.words i, r.words i);
      },
    )

pub Swapped-Rearranged :
    (a b : EjsArray) (x y lo hi : ℕ)
    → Swapped a b x y
    → lo ≤ x
    → x < hi
    → lo ≤ y
    → y < hi
    → Rearranged a.elements b.elements lo hi
Swapped-Rearranged a b x y lo hi s p q r t = record {
  from = transposed x y;
  to = transposed x y;
  words = s.words;
  from_to = transposed_twice x y;
  to_from = transposed_twice x y;
  inside = λ i j k. (ground arith, ground arith);
  outside = λ i j. ground arith;
}
