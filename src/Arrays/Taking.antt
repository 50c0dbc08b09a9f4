-- ===== src/Arrays/Taking.antt =====
-- Removal at the two ends of an array and its slices, runtime/ejs-array.c, on the list of elements.
use echo_js.Base.{
  ℕ, zero, suc, ◌+◌, ◌-◌, ◌^◌, ◌≤◌, ◌<◌, ◌≡◌, refl, ap, sym, ◌∙◌, ◌⊎◌, inl, inr, List, [], ◌∷◌,
  ◌++◌, length, take, drop, take_all, length-drop, drop-past, true, false, ok, ltb, if◌then◌else◌,
  ◌==◌, ℤ, pos, arith, Bool-cases,
}
use echo_js.Objects.{undefined_word}
use echo_js.Arrays.{
  EjsArray, load, array_new, array_pop_dense, array_shift_dense, array_slice_dense, slice_between,
  sparse_array_cutoff,
}
use echo_js.Arrays.Contents.{
  read, contents, IsArray, length-read, read_ext, read-add, take-drop-read,
}
use echo_js.Arrays.Growth.{as_int_lem}
use echo_js.Arrays.Ends.{moved, move_in_lem, move_within_lem}

module _ (a : EjsArray) (v : IsArray a) where
  no_contents : a.array_length ≡ 0 → contents a ≡ []
  no_contents e = ap (read a.elements 0) e

  abbrev popped : EjsArray
  popped = record a { array_length = a.array_length - 1 }

  popped-contents :
      0 < a.array_length → contents a ≡ contents popped ++ (a.elements (a.array_length - 1) ∷ [])
  popped-contents h =
      let e : a.array_length ≡ (a.array_length - 1) + 1 = omega arith in
      ap (read a.elements 0) e
      ∙ read-add a.elements 0 (a.array_length - 1) 1
      ∙ ap (λ (k : ℕ). contents popped ++ (a.elements k ∷ [])) (omega arith)

  pop_runs : 0 < a.array_length → array_pop_dense a ≡ ok (popped, a.elements (a.array_length - 1))
  unfolding array_pop_dense load
  pop_runs h = ground (arith, v.is_dense, v.within)

  -- Popping an array returns its last element and leaves the others, or returns undefined and
  -- leaves it as it is where it has none.
  pub array_pop_dense-contents :
      (b : EjsArray) × (r : ℕ) × (array_pop_dense a ≡ ok (b, r))
      × IsArray b
      × ((contents a ≡ contents b ++ (r ∷ []))
          ⊎ ((contents a ≡ []) × (b ≡ a) × (r ≡ undefined_word)))
  array_pop_dense-contents = elim (Bool-cases (a.array_length == 0)) [
    | inl none_left ↦ (
      a,
      undefined_word,
      unfold array_pop_dense in ground (arith, none_left),
      v,
      inr (no_contents (ground (arith, none_left)), refl, refl),
    )
    | inr some_left ↦ (
      popped,
      a.elements (a.array_length - 1),
      pop_runs (ground (arith, some_left)),
      record { is_dense = v.is_dense; within = omega (arith, v.within) },
      inl (popped-contents (ground (arith, some_left))),
    )
  ]

  module _ (fits : a.array_length < 2 ^ 31) where
    abbrev shifted_down : EjsArray
    shifted_down = record (moved a 0 (λ j. a.elements (1 + j)) (a.array_length - 1)) {
      array_length = a.array_length - 1;
    }

    shifted_down-contents : 0 < a.array_length → contents a ≡ a.elements 0 ∷ contents shifted_down
    shifted_down-contents h =
        let e : a.array_length ≡ 1 + (a.array_length - 1) = omega arith in
        ap (read a.elements 0) e
        ∙ read-add a.elements 0 1 (a.array_length - 1)
        ∙ ap (◌∷◌ (a.elements 0)) (
            read_ext a.elements shifted_down.elements (0 + 1) 0 (a.array_length - 1)
              (λ i k. ground arith))

    shift_runs : 0 < a.array_length → array_shift_dense a ≡ ok (shifted_down, a.elements 0)
    unfolding array_shift_dense load
    shift_runs h = ground (
      arith,
      v.is_dense,
      v.within,
      as_int_lem a.array_length fits,
      move_within_lem a 0 1 (a.array_length - 1) v.is_dense (omega (arith, v.within))
          (omega (arith, v.within)),
    )

    -- Shifting an array returns its first element and leaves the others, or returns undefined and
    -- leaves it as it is where it has none.
    pub array_shift_dense-contents :
        (b : EjsArray) × (r : ℕ) × (array_shift_dense a ≡ ok (b, r))
        × IsArray b
        × ((contents a ≡ r ∷ contents b) ⊎ ((contents a ≡ []) × (b ≡ a) × (r ≡ undefined_word)))
    array_shift_dense-contents = elim (Bool-cases (a.array_length == 0)) [
      | inl none_left ↦ (
        a,
        undefined_word,
        unfold array_shift_dense in ground (arith, none_left, as_int_lem a.array_length fits),
        v,
        inr (no_contents (ground (arith, none_left)), refl, refl),
      )
      | inr some_left ↦ (
        shifted_down,
        a.elements 0,
        shift_runs (ground (arith, some_left)),
        record { is_dense = v.is_dense; within = omega (arith, v.within) },
        inl (shifted_down-contents (ground (arith, some_left))),
      )
    ]

abbrev clip : ℕ → ℕ → ℕ
clip i n = if ltb i n then i else n

take_nil : (n : ℕ) → take {A = ℕ} n [] ≡ []
take_nil zero = refl
take_nil (suc n) = refl

-- Taking a piece of a list stops at its end.
clipped_piece :
    (xs : List ℕ) (b e : ℕ)
    → b ≤ e
    → take (clip e (length xs) - clip b (length xs)) (drop (clip b (length xs)) xs)
      ≡ take (e - b) (drop b xs)
clipped_piece xs b e h = elim (Bool-cases (ltb b (length xs))) [
  | inl inside ↦ elim (Bool-cases (ltb e (length xs))) [
    | inl ends ↦ rw (inside, ends) refl
    | inr past ↦
        rw (inside, past)
          (take_all (drop b xs) (length xs - b) (omega (arith, length-drop b xs))
            ∙ sym (take_all (drop b xs) (e - b) (ground (arith, length-drop b xs, past))))
  ]
  | inr outside ↦
      ap (take _) (rw outside (drop-past (length xs) xs (omega arith)))
      ∙ take_nil _
      ∙ sym (ap (take (e - b)) (drop-past b xs (ground (arith, outside))) ∙ take_nil (e - b))
]

module _ (junk : ℕ → ℕ) (n : ℕ) (small : n ≤ sparse_array_cutoff) where
  pub array_new_lem :
      ((array_new junk n false).dense ≡ true)
      × ((array_new junk n false).array_length ≡ n)
      × ((array_new junk n false).array_alloc ≡ n + 5)
  unfolding array_new
  array_new_lem = (ground arith, ground arith, ground arith)

module _ (junk : ℕ → ℕ) (a : EjsArray) (v : IsArray a) (fits : a.array_length < 2 ^ 31)
    (b e : ℕ) where
  abbrev piece : EjsArray
  piece = moved (array_new junk (e - b) false) 0 (λ j. a.elements (b + j)) (e - b)

  slice_between-contents :
      b ≤ e
      → e ≤ a.array_length
      → e - b ≤ sparse_array_cutoff
      → (slice_between junk a (pos b) (pos e) ≡ ok piece)
        × IsArray piece
        × (contents piece ≡ take (e - b) (drop b (contents a)))
  unfolding slice_between
  slice_between-contents h k small =
      let (d, n, m) = array_new_lem junk (e - b) small in
      (
        ground (
          arith,
          v.is_dense,
          v.within,
          move_in_lem (array_new junk (e - b) false) 0 (λ j. a.elements (b + j)) (e - b) d
              (omega (arith, m)),
        ),
        record { is_dense = d; within = omega (arith, n, m) },
        ap (read piece.elements 0) n
            ∙ read_ext piece.elements a.elements 0 (0 + b) (e - b) (λ i p. ground arith)
            ∙ sym (take-drop-read a.elements 0 b (e - b) a.array_length (omega arith)),
      )

-- The slice of an array between two indices that are not negative, the first not behind the
-- second, is a new array of the elements between them, as far as there are any; it may have at most
-- 50000, and the array fewer than 2 ^ 31.
pub array_slice_dense-contents :
    (junk : ℕ → ℕ) (a : EjsArray) (b e : ℕ) (more : List ℤ)
    → IsArray a
    → a.array_length < 2 ^ 31
    → b ≤ e
    → clip e a.array_length - clip b a.array_length ≤ sparse_array_cutoff
    → (r : EjsArray) × (array_slice_dense junk a (pos b ∷ pos e ∷ more) ≡ ok r)
      × IsArray r
      × (contents r ≡ take (e - b) (drop b (contents a)))
unfolding array_slice_dense
array_slice_dense-contents junk a b e more v fits h small =
    let n = a.array_length in
    let (runs, valid, same) =
      slice_between-contents junk a v fits (clip b n) (clip e n) (ground arith) (ground arith)
        small in
    let whole = rw (length-read a.elements 0 n) at (clipped_piece (contents a) b e h) in
    (piece junk a v fits (clip b n) (clip e n), rw (as_int_lem n fits) runs, valid, same ∙ whole)
