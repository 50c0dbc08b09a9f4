-- ===== src/ArrayLike/Dense.antt =====
-- The dense arrays of runtime/ejs-array.c as objects with indices: Get, Put, HasProperty and
-- DeletePropertyOrThrow are the methods for an index of Arrays.Elements.
use echo_js.Base.{
  ℕ, ◌-◌, ◌^◌, ◌≤◌, ◌<◌, ◌≡◌, refl, Bool, true, false, not, none, some, Outcome, ok, type_error,
  aborted, ◌>>=◌, pos, ltb, ◌==◌, if◌then◌else◌, arith,
}
use echo_js.Objects.{undefined_word}
use echo_js.Arrays.{EjsArray, is_array_hole}
use echo_js.Arrays.Contents.{IsArray}
use echo_js.Arrays.Elements.{
  answer, the_length, ordinary, get_element, has_element, delete_element, set_element, set_length,
}
use echo_js.Arrays.Elements.Slots.{
  slot, or_undefined, is_there, get_element-slot, has_element-slot, delete_element-slot,
  set_element-slot,
}
use echo_js.Arrays.Elements.Lengths.{set_length-slot}
use echo_js.ArrayLike.{ArrayLike}

abbrev pub dense_has : EjsArray → ℕ → Bool
dense_has a i = elim (has_element a (pos i)) [
  | ok r ↦ elim r [ answer b ↦ b | the_length n ↦ false | ordinary ↦ false ]
  | type_error ↦ false
  | aborted ↦ false
]

abbrev pub dense_get : EjsArray → ℕ → ℕ
dense_get a i = elim (get_element a (pos i)) [
  | ok v ↦ v
  | type_error ↦ undefined_word
  | aborted ↦ undefined_word
]

abbrev pub dense_delete : EjsArray → ℕ → Outcome EjsArray
dense_delete a i = delete_element a (pos i) >>= λ r. elim r [
  | answer b ↦ ok b
  | the_length n ↦ type_error
  | ordinary ↦ type_error
]

pub has_law :
    (a : EjsArray) (i : ℕ) → IsArray a → i < a.array_length → dense_has a i ≡ is_there (slot a i)
has_law a i v h = ground (arith, has_element-slot a v i h)

pub get_law : (a : EjsArray) (i : ℕ) → IsArray a → dense_get a i ≡ or_undefined (slot a i)
get_law a i v = ground (arith, get_element-slot a v i)

pub value_law :
    (a : EjsArray) (i v : ℕ) → IsArray a → slot a i ≡ some v → not (is_array_hole v) ≡ true
value_law a i v w h = ground arith

pub value_no_hole : (v : ℕ) → not (is_array_hole v) ≡ true → is_array_hole v ≡ false
value_no_hole v h = ground arith

pub behind_law : (a : EjsArray) (i : ℕ) → IsArray a → a.array_length ≤ i → slot a i ≡ none
behind_law a i w h = ground arith

pub delete_law :
    (a : EjsArray) (i : ℕ)
    → IsArray a
    → (p : EjsArray) × (dense_delete a i ≡ ok p)
      × IsArray p
      × (a.array_length ≤ p.array_length)
      × ((j : ℕ) → slot p j ≡ (if j == i then none else slot a j))
delete_law a i w =
    let (p, e, w', l, slots) = delete_element-slot a w i in
    (p, rw e refl, w', omega (arith, l), slots)

pub put_law :
    (junk : ℕ → ℕ) (a : EjsArray) (i v : ℕ)
    → IsArray a
    → i < 2 ^ 31 - 32
    → not (is_array_hole v) ≡ true
    → (p : EjsArray) × (set_element junk a (pos i) v ≡ ok p)
      × IsArray p
      × (a.array_length ≤ p.array_length)
      × ((j : ℕ) → slot p j ≡ (if j == i then some v else slot a j))
put_law junk a i v w h s =
    let (p, e, w', l, slots) = set_element-slot junk a w i v (omega arith) in
    (p, e, w', ground (arith, l), λ j. ground (arith, slots j))

pub length_law :
    (junk : ℕ → ℕ) (a : EjsArray) (n : ℕ)
    → IsArray a
    → n < 2 ^ 31 - 32
    → (p : EjsArray) × (set_length junk a n ≡ ok p)
      × IsArray p
      × (p.array_length ≡ n)
      × ((j : ℕ) → slot p j ≡ (if ltb j n then slot a j else none))
length_law junk a n w h = set_length-slot junk a w n (omega arith)

abbrev pub dense_array : (ℕ → ℕ) → ArrayLike
dense_array junk = record {
  Obj = EjsArray;
  length_of = λ a. a.array_length;
  has_property = dense_has;
  get = dense_get;
  put = λ a i v. set_element junk a (pos i) v;
  delete_property_or_throw = dense_delete;
  put_length = set_length junk;
  item = slot;
  IsValid = IsArray;
  is_value = λ v. not (is_array_hole v);
  limit = 2 ^ 31 - 32;
  has_property-item = has_law;
  get-item = get_law;
  value-no_hole = value_no_hole;
  item-is_value = value_law;
  item_behind = behind_law;
  put-item = put_law junk;
  delete-item = delete_law;
  put_length-item = length_law junk;
}
