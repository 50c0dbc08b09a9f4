-- ===== src/Arrays/Elements.antt =====
-- The internal methods of an array, _ejs_array_specop_* of runtime/ejs-array.c, which look for an
-- index and for "length" before they leave a name to the methods of an ordinary object. ToNumber and
-- ToLength, which may call JavaScript, are arguments.
pub mod Slots
pub mod Lengths
pub mod Methods
use echo_js.Base.{
  ℕ, zero, suc, ◌+◌, ◌-◌, ◌/◌, ◌%◌, ◌^◌, List, [], ◌∷◌, Bool, true, false, ◌&&◌, Option, none, some,
  Outcome, ok, aborted, ◌>>=◌, ℤ, pos, negsuc, ltb, leb, ◌==◌, ◌!=◌, if◌then◌else◌,
}
use echo_js.Ejsval.{is_symbol, is_number, is_string, is_double}
use echo_js.Ejsval.Double.{double_is_nan, double_is_zero}
use echo_js.Equality.{Memory, string_at, ucs2_strcmp_zero}
use echo_js.Objects.{undefined_word}
use echo_js.Descriptors.{PropertyDesc, propertydesc_new}
use echo_js.Arrays.{EjsArray, array_hole, is_array_hole, load, store, maybe_realloc_dense}

abbrev biased_exponent : ℕ → ℕ
biased_exponent d = d / 2 ^ 52 % 2 ^ 11

abbrev significand : ℕ → ℕ
significand d = 2 ^ 52 + d % 2 ^ 52

-- `floor (n) == n`, and then `(int)n`, which is not defined for a number that is not an int
unfoldable pub integer_of : ℕ → Outcome (Option ℤ)
unfolding double_is_nan double_is_zero
integer_of d =
    let e = biased_exponent d in
    let n = significand d / 2 ^ (1075 - e) in
    if double_is_nan d
    then ok none
    else if double_is_zero d
    then ok (some (pos 0))
    else if ltb e 1023
    then ok none
    else if ltb e 1075 && significand d % 2 ^ (1075 - e) != 0
    then ok none
    else if ltb e 1054
    then ok (some (if d / 2 ^ 63 == 0 then pos n else negsuc (n - 1)))
    else if d == 0xC1E0000000000000
    then ok (some (negsuc (2 ^ 31 - 1)))
    else aborted

-- the search for an index that every method starts with
unfoldable pub element_index : (ℕ → ℕ) → ℕ → Outcome (Option ℤ)
unfolding integer_of is_symbol is_double
element_index to_number property_name =
    if is_symbol property_name
    then ok none
    else if is_number (to_number property_name)
    then integer_of (to_number property_name)
    else ok none

-- "length"
abbrev pub length_name : List ℕ
length_name = 108 ∷ 101 ∷ 110 ∷ 103 ∷ 116 ∷ 104 ∷ []

-- the test for "length"
unfoldable pub is_length_name : Memory → ℕ → Outcome Bool
unfolding string_at ucs2_strcmp_zero is_string
is_length_name mem property_name =
    if is_string property_name
    then (string_at mem property_name >>= λ s. ok (ucs2_strcmp_zero length_name s))
    else ok false

-- What a method does: it answers, with a word or with a number that is still to be boxed, or it
-- calls the method of an ordinary object on the same arguments.
pub data Answer {ℓ} (A : Type ℓ) : Type ℓ where
  answer : A → Answer A
  the_length : ℕ → Answer A
  ordinary : Answer A

-- an index in [[Get]]
unfoldable pub get_element : EjsArray → ℤ → Outcome ℕ
unfolding load is_array_hole
get_element a (pos idx) =
    if ltb idx a.array_length
    then (load a idx >>= λ rv. ok (if is_array_hole rv then undefined_word else rv))
    else ok undefined_word
get_element a (negsuc idx) = ok undefined_word

-- _ejs_array_specop_get
unfoldable pub array_get : (ℕ → ℕ) → Memory → EjsArray → ℕ → Outcome (Answer ℕ)
unfolding element_index is_length_name get_element
array_get to_number mem a property_name = element_index to_number property_name >>= λ i. elim i [
  | some idx ↦ get_element a idx >>= λ v. ok (answer v)
  | none ↦ is_length_name mem property_name >>= λ is_length.
      ok (if is_length then the_length a.array_length else ordinary)
]

-- the description of an index in [[GetOwnProperty]]
unfoldable pub element_desc : EjsArray → ℤ → Outcome (Option PropertyDesc)
unfolding load
element_desc a (pos idx) =
    if ltb idx a.array_length
    then (load a idx >>= λ v. ok (
        some (record propertydesc_new {
          has_value = true;
          value_or_getter = v;
          writable = some true;
        })))
    else ok none
element_desc a (negsuc idx) = ok none

-- _ejs_array_specop_get_own_property; `the_length` is the description of "length"
unfoldable pub array_get_own_property :
    (ℕ → ℕ) → Memory → EjsArray → ℕ → Outcome (Answer PropertyDesc)
unfolding element_index is_length_name element_desc
array_get_own_property to_number mem a property_name = do
  i ← element_index to_number property_name
  own ← elim i [ some idx ↦ element_desc a idx | none ↦ ok none ]
  elim own [
    | some desc ↦ ok (answer desc)
    | none ↦ is_length_name mem property_name >>= λ is_length.
        ok (if is_length then the_length a.array_length else ordinary)
  ]

-- the loops that make holes, from the index `from + n - 1` down to `from`
unfoldable pub make_holes : EjsArray → ℕ → ℕ → Outcome EjsArray
unfolding store
make_holes a from zero = ok a
make_holes a from (suc n) = store a (from + n) array_hole >>= λ b. make_holes b from n

-- an index in [[Set]]; a negative one is written to, too
unfoldable pub set_element : (ℕ → ℕ) → EjsArray → ℤ → ℕ → Outcome EjsArray
unfolding maybe_realloc_dense make_holes store
set_element junk a (pos idx) val = do
  b ← maybe_realloc_dense junk a idx
  c ← make_holes b b.array_length (idx - b.array_length)
  d ← store c idx val
  ok (record d { array_length = if ltb d.array_length (idx + 1) then idx + 1 else d.array_length })
set_element junk a (negsuc idx) val = aborted

-- the length in [[Set]] and [[DefineOwnProperty]]; one that is negative as an `int` is not modelled
unfoldable pub set_length : (ℕ → ℕ) → EjsArray → ℕ → Outcome EjsArray
unfolding maybe_realloc_dense make_holes
set_length junk a new_len =
    if a.dense && ltb new_len (2 ^ 31)
    then ((if ltb a.array_alloc new_len then maybe_realloc_dense junk a new_len else ok a) >>= λ b.
        make_holes b b.array_length (new_len - b.array_length) >>= λ c.
        ok (record c { array_length = new_len }))
    else aborted

-- _ejs_array_specop_set
unfoldable pub array_set :
    (ℕ → ℕ) → (ℕ → ℕ) → (ℕ → ℕ) → Memory → EjsArray → ℕ → ℕ → Outcome (Answer EjsArray)
unfolding element_index is_length_name set_element set_length
array_set to_number to_length junk mem a property_name val =
    element_index to_number property_name >>= λ i. elim i [
      | some idx ↦ set_element junk a idx val >>= λ b. ok (answer b)
      | none ↦ is_length_name mem property_name >>= λ is_length. elim is_length [
        | true ↦ set_length junk a (to_length val % 2 ^ 32) >>= λ b. ok (answer b)
        | false ↦ ok ordinary
      ]
    ]

-- an index in [[HasProperty]]
unfoldable pub has_element : EjsArray → ℤ → Outcome (Answer Bool)
unfolding load is_array_hole
has_element a (pos idx) =
    if ltb idx a.array_length
    then (load a idx >>= λ element. ok (answer (if is_array_hole element then false else true)))
    else ok ordinary
has_element a (negsuc idx) = ok ordinary

-- _ejs_array_specop_has_property
unfoldable pub array_has_property : (ℕ → ℕ) → EjsArray → ℕ → Outcome (Answer Bool)
unfolding element_index has_element
array_has_property to_number a property_name = element_index to_number property_name >>= λ i.
    elim i [ some idx ↦ has_element a idx | none ↦ ok ordinary ]

-- an index in [[Delete]]
unfoldable pub delete_element : EjsArray → ℤ → Outcome (Answer EjsArray)
unfolding store
delete_element a (pos idx) =
    if ltb idx a.array_length
    then (store a idx array_hole >>= λ b. ok (answer b))
    else ok (answer a)
delete_element a (negsuc idx) = ok ordinary

-- _ejs_array_specop_delete
unfoldable pub array_delete : (ℕ → ℕ) → EjsArray → ℕ → Outcome (Answer EjsArray)
unfolding element_index delete_element
array_delete to_number a property_name = element_index to_number property_name >>= λ i. elim i [
  | some idx ↦ delete_element a idx
  | none ↦ ok ordinary
]

-- an index in [[DefineOwnProperty]]
unfoldable pub define_element : (ℕ → ℕ) → EjsArray → ℕ → ℕ → Outcome EjsArray
unfolding maybe_realloc_dense make_holes store
define_element junk a idx v =
    if a.dense
    then ((if leb a.array_alloc idx then maybe_realloc_dense junk a idx else ok a) >>= λ b.
        (if ltb b.array_length idx
          then make_holes b b.array_length (idx + 1 - b.array_length)
          else ok b)
        >>= λ c. store c idx v >>= λ d. ok (record d {
          array_length = if ltb d.array_length (idx + 1) then idx + 1 else d.array_length;
        }))
    else aborted

-- _ejs_property_desc_get_value
abbrev pub get_value : PropertyDesc → ℕ
get_value desc = if desc.has_value then desc.value_or_getter else undefined_word

-- the names that are no index in [[DefineOwnProperty]]
unfoldable pub define_length :
    (ℕ → ℕ) → (ℕ → ℕ) → Memory → EjsArray → ℕ → PropertyDesc → Outcome (Answer EjsArray)
unfolding is_length_name set_length
define_length to_uint32 junk mem a property_name desc =
    is_length_name mem property_name >>= λ is_length. elim is_length [
      | true ↦ set_length junk a (to_uint32 (get_value desc) % 2 ^ 32) >>= λ b. ok (answer b)
      | false ↦ ok ordinary
    ]

-- _ejs_array_specop_define_own_property
unfoldable pub array_define_own_property :
    (ℕ → ℕ) → (ℕ → ℕ) → (ℕ → ℕ) → Memory → EjsArray → ℕ → PropertyDesc → Outcome (Answer EjsArray)
unfolding element_index define_element define_length
array_define_own_property to_number to_uint32 junk mem a property_name desc =
    element_index to_number property_name >>= λ i. elim i [
      | some (pos idx) ↦ define_element junk a idx desc.value_or_getter >>= λ b. ok (answer b)
      | some (negsuc idx) ↦ define_length to_uint32 junk mem a property_name desc
      | none ↦ define_length to_uint32 junk mem a property_name desc
    ]
