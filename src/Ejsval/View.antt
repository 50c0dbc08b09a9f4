-- ===== src/Ejsval/View.antt =====
-- What a word stands for, independently of its bits.
use echo_js.Base.{ℕ, ◌≤◌, ◌<◌, ◌^◌, Bool, true, false, Option, none, some, if◌then◌else◌}
use echo_js.Ejsval.{
  shifted_tag_of, type_undefined, type_null, shifted_tag_max_double, is_double, is_int32,
  is_undefined, is_string, is_closureenv, is_boolean, is_symbol, is_magic, is_object, is_null,
  int32_to_ejsval, boolean_to_ejsval, magic_to_ejsval, string_to_ejsval, closureenv_to_ejsval,
  symbol_to_ejsval, object_to_ejsval, to_int32, to_boolean, to_pointer,
}

-- A constructor for each EJSVAL_TYPE. An `int32` and a `magic` hold 32 bits, a `boolean` an
-- EJSBool, and the last five an address.
pub data View : Type 0 where
  double int32 boolean magic string closureenv symbol object : ℕ → View
  undefined null : View

-- The word that the constructor functions of ejsval.h build.
unfoldable pub encode : View → ℕ
unfolding int32_to_ejsval boolean_to_ejsval magic_to_ejsval string_to_ejsval closureenv_to_ejsval
    symbol_to_ejsval object_to_ejsval
encode (double d) = d
encode (int32 i) = int32_to_ejsval i
encode undefined = shifted_tag_of type_undefined
encode (boolean b) = boolean_to_ejsval b
encode (magic why) = magic_to_ejsval why
encode (string p) = string_to_ejsval p
encode (closureenv p) = closureenv_to_ejsval p
encode null = shifted_tag_of type_null
encode (symbol p) = symbol_to_ejsval p
encode (object p) = object_to_ejsval p

-- What the predicates and the accessors of ejsval.h make of a word.
unfoldable pub decode : ℕ → Option View
unfolding is_double is_int32 is_undefined is_string is_closureenv is_boolean is_symbol is_magic
    is_object is_null to_int32 to_boolean to_pointer
decode l =
    if is_double l
    then some (double l)
    else if is_int32 l
    then some (int32 (to_int32 l))
    else if is_undefined l
    then some undefined
    else if is_boolean l
    then some (boolean (to_boolean l))
    else if is_magic l
    then some (magic (to_int32 l))
    else if is_string l
    then some (string (to_pointer l))
    else if is_closureenv l
    then some (closureenv (to_pointer l))
    else if is_null l
    then some null
    else if is_symbol l
    then some (symbol (to_pointer l))
    else if is_object l
    then some (object (to_pointer l))
    else none

-- The ranges that the assertions of ejsval.h ask for.
abbrev pub Fits : View → Type 0
Fits (double d) = d ≤ shifted_tag_max_double
Fits (int32 i) = i < 2 ^ 32
Fits undefined = Unit
Fits (boolean b) = b < 2
Fits (magic why) = why < 2 ^ 32
Fits (string p) = (0 < p) × (p < 2 ^ 47)
Fits (closureenv p) = (0 < p) × (p < 2 ^ 47)
Fits null = Unit
Fits (symbol p) = (0 < p) × (p < 2 ^ 47)
Fits (object p) = (0 < p) × (p < 2 ^ 47)

-- The values that the collector follows.
abbrev pub holds_cell : View → Bool
holds_cell (string p) = true
holds_cell (closureenv p) = true
holds_cell (symbol p) = true
holds_cell (object p) = true
holds_cell _ = false

-- The EJSVAL_TYPE of a value.
abbrev pub type_code : View → ℕ
type_code (double d) = 0
type_code (int32 i) = 1
type_code undefined = 2
type_code (boolean b) = 3
type_code (magic why) = 4
type_code (string p) = 5
type_code (closureenv p) = 6
type_code null = 7
type_code (symbol p) = 8
type_code (object p) = 9
