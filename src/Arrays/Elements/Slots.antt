-- ===== src/Arrays/Elements/Slots.antt =====
-- What an array of runtime/ejs-array.c has at each index, and the internal methods on it.
use echo_js.Base.{
  ℕ, zero, suc, ◌+◌, ◌-◌, ◌^◌, ◌≤◌, ◌<◌, ◌≡◌, refl, ◌∙◌, Bool, true, false, ◌&&◌, Option, none,
  some, ok, pos, ltb, leb, ◌==◌, if◌then◌else◌, inl, inr, Bool-cases, arith,
}
use echo_js.Objects.{undefined_word}
use echo_js.Ejsval.{is_magic, to_int32}
use echo_js.Arrays.{EjsArray, array_hole, is_array_hole, load, store}
use echo_js.Arrays.Contents.{IsArray}
use echo_js.Arrays.Growth.{Grown, maybe_realloc_dense-Grown}
use echo_js.Arrays.Elements.{
  answer, make_holes, get_element, has_element, delete_element, set_element,
}

-- the element that a word of the buffer is
abbrev pub as_slot : ℕ → Option ℕ
as_slot v = if is_array_hole v then none else some v

-- the element at an index
abbrev pub slot : EjsArray → ℕ → Option ℕ
slot a i = if ltb i a.array_length then as_slot (a.elements i) else none

abbrev pub or_undefined : Option ℕ → ℕ
or_undefined none = undefined_word
or_undefined (some v) = v

abbrev pub is_there : Option ℕ → Bool
is_there none = false
is_there (some v) = true

pub hole_is_no_element : as_slot array_hole ≡ none
unfolding is_array_hole array_hole is_magic to_int32
hole_is_no_element = refl

-- `b` is `a` with other words in its buffer.
pub record Rewritten (a b : EjsArray) (word : ℕ → ℕ) : Type 0 where
  pub is_dense : b.dense ≡ true
  pub same_alloc : b.array_alloc ≡ a.array_alloc
  pub same_length : b.array_length ≡ a.array_length
  pub words : (i : ℕ) → b.elements i ≡ word i

pub store-Rewritten :
    (a : EjsArray) (i v : ℕ)
    → a.dense ≡ true
    → i < a.array_alloc
    → (b : EjsArray) × (store a i v ≡ ok b)
      × Rewritten a b (λ j. if j == i then v else a.elements j)
unfolding store
store-Rewritten a i v d h = (
  record a { elements = λ j. if j == i then v else a.elements j },
  ground arith,
  record { is_dense = d; same_alloc = refl; same_length = refl; words = λ j. refl },
)

pub make_holes-Rewritten :
    (a : EjsArray) (from n : ℕ)
    → a.dense ≡ true
    → from + n ≤ a.array_alloc
    → (b : EjsArray) × (make_holes a from n ≡ ok b)
      × Rewritten a b (λ j. if leb from j && ltb j (from + n) then array_hole else a.elements j)
unfolding make_holes
make_holes-Rewritten a from zero d h = (
  a,
  refl,
  record { is_dense = d; same_alloc = refl; same_length = refl; words = λ j. ground arith },
)
make_holes-Rewritten a from (suc n) d h =
    let (b, e, r) = store-Rewritten a (from + n) array_hole d (omega arith) in
    let (c, f, q) = make_holes-Rewritten b from n r.is_dense (omega (arith, r.same_alloc)) in
    (
      c,
      rw (e) f,
      record {
        is_dense = q.is_dense;
        same_alloc = q.same_alloc ∙ r.same_alloc;
        same_length = q.same_length ∙ r.same_length;
        words = λ j. ground (arith, q.words j, r.words j);
      },
    )

module _ (a : EjsArray) (v : IsArray a) where
  pub get_element-slot : (i : ℕ) → get_element a (pos i) ≡ ok (or_undefined (slot a i))
  unfolding get_element load
  get_element-slot i = ground (arith, v.is_dense, v.within)

  pub has_element-slot :
      (i : ℕ) → i < a.array_length → has_element a (pos i) ≡ ok (answer (is_there (slot a i)))
  unfolding has_element load
  has_element-slot i h = ground (arith, v.is_dense, v.within)

  pub delete_element-slot :
      (i : ℕ)
      → (b : EjsArray) × (delete_element a (pos i) ≡ ok (answer b))
        × IsArray b
        × (b.array_length ≡ a.array_length)
        × ((j : ℕ) → slot b j ≡ (if j == i then none else slot a j))
  unfolding delete_element
  delete_element-slot i = elim (Bool-cases (ltb i a.array_length)) [
    | inr outside ↦ (a, rw outside refl, v, refl, λ j. ground (arith, outside))
    | inl inside ↦
        let (b, e, r) =
          store-Rewritten a i array_hole v.is_dense (ground (arith, inside, v.within)) in
        (
          b,
          rw (inside, e) refl,
          record {
            is_dense = r.is_dense;
            within = omega (arith, r.same_alloc, r.same_length, v.within);
          },
          r.same_length,
          λ j. erased b r j,
        )
  ]
    where
      erased :
          (b : EjsArray)
          → Rewritten a b (λ j. if j == i then array_hole else a.elements j)
          → (j : ℕ) → slot b j ≡ (if j == i then none else slot a j)
      erased b r j = ground (arith, r.words j, r.same_length, hole_is_no_element)

-- The three steps of a write at the index `i`: the growth, the holes up to `m`, and the write.
module _ (a g c d : EjsArray) (v : IsArray a) (i m val : ℕ) (w : Grown a g i)
    (r : Rewritten g c (λ j.
      if leb g.array_length j && ltb j (g.array_length + (m - g.array_length))
      then array_hole
      else g.elements j))
    (q : Rewritten c d (λ j. if j == i then val else c.elements j)) where
  abbrev written : EjsArray
  written = record d { array_length = if ltb d.array_length (i + 1) then i + 1 else d.array_length }

  written-IsArray : IsArray written
  written-IsArray = record {
    is_dense = q.is_dense;
    within =
        ground
          (arith, w.room, w.still_within, r.same_alloc, r.same_length, q.same_alloc, q.same_length);
  }

  written-length :
      written.array_length ≡ (if ltb a.array_length (i + 1) then i + 1 else a.array_length)
  written-length = ground (arith, w.same_length, r.same_length, q.same_length)

  -- the holes reach up to the index
  written-slot : i ≤ m → (j : ℕ) → slot written j ≡ (if j == i then as_slot val else slot a j)
  written-slot h j = ground (
    arith,
    q.words j,
    r.words j,
    w.kept j,
    w.same_length,
    r.same_length,
    q.same_length,
    hole_is_no_element,
  )

module _ (junk : ℕ → ℕ) (a : EjsArray) (v : IsArray a) where
  -- A write to the element at an index never leaves the buffer. Afterwards the array has the value
  -- there, at each other index what it had before, nothing at those between the old end and the new
  -- one, and the length is the old one or just enough for the index.
  pub set_element-slot :
      (i val : ℕ)
      → i + 32 < 2 ^ 31
      → (b : EjsArray) × (set_element junk a (pos i) val ≡ ok b)
        × IsArray b
        × (b.array_length ≡ (if ltb a.array_length (i + 1) then i + 1 else a.array_length))
        × ((j : ℕ) → slot b j ≡ (if j == i then as_slot val else slot a j))
  unfolding set_element
  set_element-slot i val h =
      let (g, e, w) = maybe_realloc_dense-Grown junk a v i h in
      let n = g.array_length in
      let (c, f, r) =
        make_holes-Rewritten g n (i - n) w.is_dense (omega (arith, w.room, w.still_within)) in
      let (d, k, q) = store-Rewritten c i val r.is_dense (omega (arith, w.room, r.same_alloc)) in
      (
        written a g c d v i i val w r q,
        rw (e, f, k) refl,
        written-IsArray a g c d v i i val w r q,
        written-length a g c d v i i val w r q,
        written-slot a g c d v i i val w r q (omega arith),
      )
