-- ===== src/Arrays/Ends.antt =====
-- The fast paths at the two ends of an array of runtime/ejs-array.c, on the list of its elements.
use echo_js.Base.{
  ℕ, ◌+◌, ◌-◌, ◌^◌, ◌≤◌, ◌<◌, ◌≡◌, ap, ◌∙◌, List, ◌++◌, length, true, ok, leb, ltb, if◌then◌else◌,
  ◌&&◌, arith,
}
use echo_js.Objects.{argument}
use echo_js.Arrays.{
  EjsArray, move_in, move_within, maybe_realloc_dense, array_push_dense, array_unshift_dense,
}
use echo_js.Arrays.Contents.{
  read, contents, IsArray, length-read, read_ext, read-add, read-argument,
}
use echo_js.Arrays.Growth.{Grown, maybe_realloc_dense-Grown, as_int_lem}

-- the memory after a move to `dst`
abbrev pub moved : EjsArray → ℕ → (ℕ → ℕ) → ℕ → EjsArray
moved a dst from n = record a {
  elements = λ j. if leb dst j && ltb j (dst + n) then from (j - dst) else a.elements j;
}

pub move_in_lem :
    (a : EjsArray) (dst : ℕ) (from : ℕ → ℕ) (n : ℕ)
    → a.dense ≡ true
    → dst + n ≤ a.array_alloc
    → move_in a dst from n ≡ ok (moved a dst from n)
unfolding move_in
move_in_lem a dst from n d h = ground arith

pub move_within_lem :
    (a : EjsArray) (dst src n : ℕ)
    → a.dense ≡ true
    → dst + n ≤ a.array_alloc
    → src + n ≤ a.array_alloc
    → move_within a dst src n ≡ ok (moved a dst (λ j. a.elements (src + j)) n)
unfolding move_within
move_within_lem a dst src n d h k =
    ground (arith, move_in_lem a dst (λ j. a.elements (src + j)) n d h)

-- A buffer that has grown, with the arguments behind the elements or in front of them.
module _ (a g : EjsArray) (args : List ℕ) (w : Grown a g (a.array_length + length args)) where
  abbrev pushed : EjsArray
  pushed = record (moved g g.array_length (λ i. argument i args) (length args)) {
    array_length = g.array_length + length args;
  }

  pushed-IsArray : IsArray pushed
  pushed-IsArray = record { is_dense = w.is_dense; within = omega (arith, w.room, w.same_length) }

  pushed-old : (i : ℕ) → i < a.array_length → pushed.elements (0 + i) ≡ a.elements (0 + i)
  pushed-old i h = ground (arith, w.kept (0 + i), w.same_length)

  pushed-new :
      (i : ℕ) → i < length args → pushed.elements (0 + a.array_length + i) ≡ argument i args
  pushed-new i h = ground (arith, w.same_length)

  pushed-contents : contents pushed ≡ contents a ++ args
  pushed-contents =
      ap (λ (n : ℕ). read pushed.elements 0 (n + length args)) w.same_length
      ∙ read-add pushed.elements 0 a.array_length (length args)
      ∙ ap (λ (xs : List ℕ). xs ++ read pushed.elements (0 + a.array_length) (length args))
          (read_ext pushed.elements a.elements 0 0 a.array_length pushed-old)
      ∙ ap (λ (xs : List ℕ). contents a ++ xs)
          (read-argument pushed.elements (0 + a.array_length) args pushed-new)

  abbrev shifted : EjsArray
  shifted = moved g (length args) (λ j. g.elements (0 + j)) a.array_length

  abbrev unshifted : EjsArray
  unshifted = record (moved shifted 0 (λ i. argument i args) (length args)) {
    array_length = g.array_length + length args;
  }

  unshifted-IsArray : IsArray unshifted
  unshifted-IsArray = record {
    is_dense = w.is_dense;
    within = omega (arith, w.room, w.same_length);
  }

  unshifted-new : (i : ℕ) → i < length args → unshifted.elements (0 + i) ≡ argument i args
  unshifted-new i h = ground arith

  unshifted-old :
      (i : ℕ) → i < a.array_length → unshifted.elements (0 + length args + i) ≡ a.elements (0 + i)
  unshifted-old i h = ground (arith, w.kept (0 + i))

  unshifted-contents : contents unshifted ≡ args ++ contents a
  unshifted-contents =
      ap (read unshifted.elements 0) (omega (arith, w.same_length))
      ∙ read-add unshifted.elements 0 (length args) a.array_length
      ∙ ap (λ (xs : List ℕ). xs ++ read unshifted.elements (0 + length args) a.array_length)
          (read-argument unshifted.elements 0 args unshifted-new)
      ∙ ap (λ (xs : List ℕ). args ++ xs)
          (read_ext unshifted.elements a.elements (0 + length args) 0 a.array_length unshifted-old)

module _ (junk : ℕ → ℕ) (a : EjsArray) (args : List ℕ) (v : IsArray a)
    (fits : a.array_length + length args + 32 < 2 ^ 31) where
  -- Pushing to a dense array whose elements lie in its buffer, while the length and the number of the
  -- arguments together stay below 2 ^ 31 - 32: it does not leave the buffer, the elements are those
  -- of before and then the arguments, and the result is the new length.
  pub array_push_dense-contents :
      (b : EjsArray) × (array_push_dense junk a args ≡ ok (b, length (contents b)))
      × IsArray b
      × (contents b ≡ contents a ++ args)
  unfolding array_push_dense
  array_push_dense-contents =
      let (g, e, w) = maybe_realloc_dense-Grown junk a v (a.array_length + length args) fits in
      (pushed a g args w, push_runs g e w, pushed-IsArray a g args w, pushed-contents a g args w)
    where
      push_runs :
          (g : EjsArray)
          → maybe_realloc_dense junk a (a.array_length + length args) ≡ ok g
          → (w : Grown a g (a.array_length + length args))
          → array_push_dense junk a args
            ≡ ok (pushed a g args w, length (contents (pushed a g args w)))
      push_runs g e w = ground (
        arith,
        e,
        w.same_length,
        move_in_lem g g.array_length (λ i. argument i args) (length args) w.is_dense
            (omega (arith, w.room, w.same_length)),
        length-read (pushed a g args w).elements 0 (g.array_length + length args),
      )

  -- Unshifting under the same conditions does not leave the buffer. The elements are the arguments
  -- and then those of before, and the result is the new length.
  pub array_unshift_dense-contents :
      (b : EjsArray) × (array_unshift_dense junk a args ≡ ok (b, length (contents b)))
      × IsArray b
      × (contents b ≡ args ++ contents a)
  unfolding array_unshift_dense
  array_unshift_dense-contents =
      let (g, e, w) = maybe_realloc_dense-Grown junk a v (a.array_length + length args) fits in
      (
        unshifted a g args w,
        unshift_runs g e w,
        unshifted-IsArray a g args w,
        unshifted-contents a g args w,
      )
    where
      unshift_runs :
          (g : EjsArray)
          → maybe_realloc_dense junk a (a.array_length + length args) ≡ ok g
          → (w : Grown a g (a.array_length + length args))
          → array_unshift_dense junk a args
            ≡ ok (unshifted a g args w, length (contents (unshifted a g args w)))
      unshift_runs g e w = ground (
        arith,
        e,
        w.same_length,
        as_int_lem g.array_length (omega (arith, w.same_length)),
        move_within_lem g (length args) 0 g.array_length w.is_dense
            (omega (arith, w.room, w.same_length)) (omega (arith, w.still_within)),
        move_in_lem (shifted a g args w) 0 (λ i. argument i args) (length args) w.is_dense
            (omega (arith, w.room)),
        length-read (unshifted a g args w).elements 0 (g.array_length + length args),
      )
