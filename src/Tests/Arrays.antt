-- ===== src/Tests/Arrays.antt =====
-- The arrays of runtime/ejs-array.c at short concrete arrays.
use echo_js.Base.{
  ℕ, ◌+◌, ◌-◌, ◌≤◌, ◌<◌, ◌≡◌, refl, [], ◌∷◌, ◌++◌, true, false, none, some, List, Outcome, ok,
  type_error, aborted, pos, negsuc, length, take, drop, ltb, ◌==◌, if◌then◌else◌, arith,
}
use echo_js.Ejsval.{
  is_magic, to_int32, magic_to_ejsval, is_symbol, is_double, is_string, to_pointer,
  string_to_ejsval,
}
use echo_js.Ejsval.Double.{double_is_nan, double_is_zero}
use echo_js.Equality.{Memory, string_at, ucs2_strcmp_zero}
use echo_js.Objects.{argument}
use echo_js.Descriptors.{propertydesc_new}
use echo_js.Arrays.{
  EjsArray, array_hole, is_array_hole, as_int, load, store, move_in, move_within, array_new,
  maybe_realloc_dense, array_push_dense, array_pop_dense, array_new_copy, swap_dense,
  array_shift_dense, array_unshift_dense, slice_between, array_slice_dense,
}
use echo_js.Arrays.Contents.{contents, IsArray}
use echo_js.Arrays.Ends.{array_push_dense-contents}
use echo_js.Arrays.Shifting.{array_shift_dense-array_unshift_dense}
use echo_js.Arrays.Taking.{array_slice_dense-contents}
use echo_js.Arrays.Elements.{
  answer, the_length, ordinary, integer_of, element_index, length_name, is_length_name, get_element,
  array_get, make_holes, set_element, set_length, array_set, has_element, delete_element,
  define_length, define_element, array_define_own_property,
}
use echo_js.Arrays.Elements.Slots.{slot, as_slot}
use echo_js.ArrayLike.{
  reverse, reverse_loop, exchange, splice_at, taken, move_item, move_up, move_down, delete_down,
  put_items, actual_start, wrapped,
}
use echo_js.ArrayLike.Reversal.{reverse-Reversed}
use echo_js.ArrayLike.Copying.{or_else}
use echo_js.ArrayLike.Splicing.{splice_at-Spliced}
use echo_js.ArrayLike.Dense.{dense_array}

-- every function on arrays
unfoldable arraying : Unit {0}
unfolding is_magic to_int32 magic_to_ejsval is_symbol is_double is_string to_pointer
    string_to_ejsval double_is_nan double_is_zero string_at ucs2_strcmp_zero array_hole
    is_array_hole as_int load store move_in move_within array_new maybe_realloc_dense
    array_push_dense array_pop_dense array_new_copy swap_dense array_shift_dense array_unshift_dense
    slice_between array_slice_dense integer_of element_index is_length_name get_element array_get
    make_holes set_element set_length array_set has_element delete_element define_length
    define_element array_define_own_property reverse reverse_loop exchange splice_at taken move_item
    move_up move_down delete_down put_items actual_start wrapped
arraying = tt

-- what malloc leaves
abbrev junk : ℕ → ℕ
junk i = 99

-- an array of 1, 2 and 3, with no room left
abbrev three : EjsArray
three = record { dense = true; array_alloc = 3; elements = λ i. i + 1; array_length = 3 }

three-IsArray : IsArray three
three-IsArray = record { is_dense = refl; within = omega arith }

array_push_dense-contents_example :
    (b : EjsArray) × (array_push_dense junk three (7 ∷ 8 ∷ []) ≡ ok (b, length (contents b)))
    × IsArray b
    × (contents b ≡ contents three ++ (7 ∷ 8 ∷ []))
array_push_dense-contents_example =
    array_push_dense-contents junk three (7 ∷ 8 ∷ []) three-IsArray (omega arith)

array_slice_dense-contents_example :
    (r : EjsArray) × (array_slice_dense junk three (pos 1 ∷ pos 9 ∷ []) ≡ ok r)
    × IsArray r
    × (contents r ≡ take (9 - 1) (drop 1 (contents three)))
array_slice_dense-contents_example =
    array_slice_dense-contents junk three 1 9 [] three-IsArray (omega arith) (omega arith)
      (omega arith)

-- [1, 2, 3].slice (-1) reads before the buffer.
slice_test : array_slice_dense junk three (negsuc 0 ∷ []) ≡ aborted
unfolding arraying
slice_test = refl

-- the numbers 5 and 0, as words
abbrev five : ℕ
five = 0x4014000000000000

abbrev id_number : ℕ → ℕ
id_number v = v

abbrev no_strings : Memory
no_strings p = none

-- Object.defineProperty (a, "length", { writable: false }) empties the array.
abbrev length_at_16 : Memory
length_at_16 p = if p == 16 then some length_name else none

abbrev to_nan : ℕ → ℕ
to_nan v = 0x7FF8000000000000

abbrev to_zero : ℕ → ℕ
to_zero v = 0

emptied_test :
    elim (array_define_own_property to_nan to_zero junk length_at_16 three
        (string_to_ejsval 16)
        (record propertydesc_new { writable = some false }))
      as (λ r. ℕ) [
        | ok r ↦ elim r [ answer b ↦ b.array_length | the_length n ↦ 9 | ordinary ↦ 9 ]
        | type_error ↦ 9
        | aborted ↦ 9
      ]
    ≡ 0
unfolding arraying
emptied_test = refl

reverse-Reversed_example :
    (p : EjsArray) × (reverse (dense_array junk) three ≡ ok p)
    × IsArray p
    × (3 ≤ p.array_length)
    × ((j : ℕ) → j < 3 → slot p j ≡ slot three (3 - 1 - j))
reverse-Reversed_example =
    reverse-Reversed (dense_array junk) three three-IsArray (omega arith) (omega arith)

splice_at-Spliced_example :
    (p : EjsArray) × (B : EjsArray) × (splice_at (dense_array junk) junk three 1 1 (7 ∷ 8 ∷ [])
      ≡ ok (p, B))
    × IsArray B
    × (B.array_length ≡ 1)
    × ((j : ℕ) → j < 1 → slot B j ≡ or_else (slot three (1 + j)) (as_slot (junk j)))
    × IsArray p
    × (p.array_length ≡ 3 - 1 + 2)
    × ((j : ℕ)
        → slot p j ≡ (
            if ltb j 1
            then slot three j
            else if ltb j (1 + 2)
            then some (argument (j - 1) (7 ∷ 8 ∷ []))
            else if ltb j (3 - 1 + 2)
            then slot three (j - 2 + 1)
            else none))
unfolding is_array_hole is_magic to_int32
splice_at-Spliced_example =
    splice_at-Spliced (dense_array junk) junk three 1 1 (7 ∷ 8 ∷ []) three-IsArray (omega arith)
      (omega arith) (omega arith) (omega arith) (refl, (refl, tt))

-- an array of 1 and a hole
abbrev holed : EjsArray
holed = record {
  dense = true;
  array_alloc = 2;
  elements = λ i. if i == 0 then 1 else array_hole;
  array_length = 2;
}

abbrev deleted_contents : Outcome (EjsArray × EjsArray) → List ℕ
deleted_contents (ok (p, B)) = contents B
deleted_contents r = []

-- The new array has what malloc left where the object has a hole.
hole_test : deleted_contents (splice_at (dense_array junk) junk holed 0 2 []) ≡ 1 ∷ 99 ∷ []
unfolding arraying
hole_test = refl

array_shift_dense-array_unshift_dense_example :
    (b : EjsArray) × (c : EjsArray) × (array_unshift_dense junk three (7 ∷ 8 ∷ []) ≡ ok (b, 3 + 2))
    × (array_shift_dense b ≡ ok (c, 7))
    × IsArray c
    × (contents c ≡ (8 ∷ []) ++ contents three)
array_shift_dense-array_unshift_dense_example =
    array_shift_dense-array_unshift_dense junk three 7 (8 ∷ []) three-IsArray (omega arith)

-- splice (2 ** 32, …) starts at the first element.
start_test : actual_start 3 (pos 4294967296) ≡ pos 0
unfolding actual_start wrapped
start_test = refl
