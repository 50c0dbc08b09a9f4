-- ===== src/Tests/Searching.antt =====
-- indexOf, fill and copyWithin of runtime/ejs-array.c at short concrete arrays.
use echo_js.Base.{
  ℕ, ◌+◌, ◌≡◌, refl, List, [], ◌∷◌, true, none, Outcome, ok, ◌==◌, if◌then◌else◌, arith,
}
use echo_js.Ejsval.{is_magic, to_int32}
use echo_js.Equality.{Memory}
use echo_js.Arrays.{EjsArray, is_array_hole, load, store, maybe_realloc_dense}
use echo_js.Arrays.Contents.{contents, IsArray}
use echo_js.Arrays.Elements.{get_element, has_element, delete_element, set_element, make_holes}
use echo_js.ArrayLike.{move_item, wrapped}
use echo_js.ArrayLike.Dense.{dense_array}
use echo_js.ArrayLike.Filling.{copy_between, copy_up, copy_down}

abbrev junk : ℕ → ℕ
junk i = 99

abbrev no_strings : Memory
no_strings p = none

-- 1 to 7, as words
abbrev seven : EjsArray
seven = record { dense = true; array_alloc = 8; elements = λ i. i + 1; array_length = 7 }

seven-IsArray : IsArray seven
seven-IsArray = record { is_dense = refl; within = omega arith }

-- an array of two doubles
abbrev pair : EjsArray
pair = record {
  dense = true;
  array_alloc = 2;
  elements = λ i. if i == 0 then 0x3FF0000000000000 else 0x4000000000000000;
  array_length = 2;
}

abbrev contents_of : Outcome EjsArray → List ℕ
contents_of (ok a) = contents a
contents_of r = []

-- copyWithin (0, 4): the third element lands at 3, not at 2.
scattered_test :
    contents_of (copy_between (dense_array junk) seven 0 4 7) ≡ 5 ∷ 6 ∷ 3 ∷ 7 ∷ 5 ∷ 6 ∷ 7 ∷ []
unfolding copy_between copy_up copy_down move_item wrapped set_element get_element has_element
    delete_element make_holes maybe_realloc_dense load store is_array_hole is_magic to_int32
scattered_test = refl
