-- ===== src/Ejsval.antt =====
-- runtime/ejsval.h and runtime/ejs-value.h, the 64-bit layout (EJS_BITS_PER_WORD == 64): a
-- JavaScript value is one 64-bit word, a double or a tag of 17 bits over a payload of 47.
-- A word is a natural number below 2 ^ 64; `(uint32_t)` is the remainder by 2 ^ 32.
pub mod Double
pub mod View
pub mod Boxing
use echo_js.Base.{ℕ, ◌*◌, ◌/◌, ◌%◌, ◌^◌, bit_and, bit_or, Bool, not, ◌&&◌, leb, ◌==◌}
unfoldable pub use Double.{double_is_nan, double_is_zero, double_eq, double_is_negzero}
pub use Double.{double_is_negzero_lem, double_eq_nan, double_eq_zero}

-- EJSVAL_TAG_SHIFT and EJSVAL_PAYLOAD_MASK
abbrev pub tag_shift : ℕ
tag_shift = 47

abbrev pub payload_mask : ℕ
payload_mask = 0x00007FFFFFFFFFFF

-- EJSVAL_TYPE_* and EJSVAL_TAG_MAX_DOUBLE
abbrev pub tag_max_double : ℕ
tag_max_double = 0x1FFF0

abbrev pub type_int32 : ℕ
type_int32 = 1

abbrev pub type_undefined : ℕ
type_undefined = 2

abbrev pub type_boolean : ℕ
type_boolean = 3

abbrev pub type_magic : ℕ
type_magic = 4

abbrev pub type_string : ℕ
type_string = 5

abbrev pub type_closureenv : ℕ
type_closureenv = 6

abbrev pub type_null : ℕ
type_null = 7

abbrev pub type_symbol : ℕ
type_symbol = 8

abbrev pub type_object : ℕ
type_object = 9

-- EJSVAL_TYPE_TO_TAG and EJSVAL_TYPE_TO_SHIFTED_TAG
abbrev pub tag_of : ℕ → ℕ
tag_of type = bit_or tag_max_double type

abbrev pub shifted_tag_of : ℕ → ℕ
shifted_tag_of type = tag_of type * 2 ^ tag_shift

-- EJSVAL_SHIFTED_TAG_MAX_DOUBLE
abbrev pub shifted_tag_max_double : ℕ
shifted_tag_max_double = bit_or (tag_max_double * 2 ^ tag_shift) 0xFFFFFFFF

-- EJSVAL_TO_TAG
unfoldable pub to_tag : ℕ → ℕ
to_tag l = l / 2 ^ tag_shift % 2 ^ 32

-- EJSVAL_IS_*_IMPL
unfoldable pub is_double : ℕ → Bool
is_double l = leb l shifted_tag_max_double

-- EJSVAL_IS_NUMBER of ejs-value.h
abbrev pub is_number : ℕ → Bool
is_number l = is_double l

unfoldable pub is_int32 : ℕ → Bool
is_int32 l = l / 2 ^ tag_shift % 2 ^ 32 == tag_of type_int32

unfoldable pub is_undefined : ℕ → Bool
is_undefined l = l == shifted_tag_of type_undefined

unfoldable pub is_string : ℕ → Bool
is_string l = l / 2 ^ tag_shift % 2 ^ 32 == tag_of type_string

unfoldable pub is_closureenv : ℕ → Bool
is_closureenv l = l / 2 ^ tag_shift % 2 ^ 32 == tag_of type_closureenv

unfoldable pub is_boolean : ℕ → Bool
is_boolean l = l / 2 ^ tag_shift % 2 ^ 32 == tag_of type_boolean

unfoldable pub is_symbol : ℕ → Bool
is_symbol l = l / 2 ^ tag_shift % 2 ^ 32 == tag_of type_symbol

unfoldable pub is_magic : ℕ → Bool
is_magic l = l / 2 ^ tag_shift == tag_of type_magic

unfoldable pub is_object : ℕ → Bool
is_object l = leb (shifted_tag_of type_object) l

unfoldable pub is_null : ℕ → Bool
is_null l = l == shifted_tag_of type_null

-- EJSVAL_IS_GCTHING_IMPL and EJSVAL_IS_TRACEABLE_IMPL
unfoldable pub is_gcthing : ℕ → Bool
is_gcthing l = leb (shifted_tag_of type_string) l

unfoldable pub is_traceable : ℕ → Bool
unfolding is_gcthing is_null
is_traceable l = is_gcthing l && not (is_null l)

-- *_TO_EJSVAL_IMPL; a double is its own word
unfoldable pub int32_to_ejsval : ℕ → ℕ
int32_to_ejsval i = bit_or (i % 2 ^ 32) (shifted_tag_of type_int32)

unfoldable pub boolean_to_ejsval : ℕ → ℕ
boolean_to_ejsval b = bit_or (b % 2 ^ 32) (shifted_tag_of type_boolean)

unfoldable pub magic_to_ejsval : ℕ → ℕ
magic_to_ejsval why = bit_or (why % 2 ^ 32) (shifted_tag_of type_magic)

unfoldable pub string_to_ejsval : ℕ → ℕ
string_to_ejsval ptr = bit_or ptr (shifted_tag_of type_string)

unfoldable pub closureenv_to_ejsval : ℕ → ℕ
closureenv_to_ejsval ptr = bit_or ptr (shifted_tag_of type_closureenv)

unfoldable pub symbol_to_ejsval : ℕ → ℕ
symbol_to_ejsval ptr = bit_or ptr (shifted_tag_of type_symbol)

unfoldable pub object_to_ejsval : ℕ → ℕ
object_to_ejsval ptr = bit_or ptr (shifted_tag_of type_object)

-- EJSVAL_TO_*_IMPL: the low 32 bits, or the masked pointer
unfoldable pub to_int32 : ℕ → ℕ
to_int32 l = l % 2 ^ 32

unfoldable pub to_boolean : ℕ → ℕ
to_boolean l = l % 2 ^ 32

unfoldable pub to_pointer : ℕ → ℕ
to_pointer l = bit_and l payload_mask
