-- ===== src/Equality.antt =====
-- The three comparisons of runtime/ejs-ops.c that end without calling back into JavaScript:
-- SameValue, SameValueZero and the strict equality, and ucs2_strcmp of runtime/ejs-string.c.
pub mod Strings
pub mod Numbers
pub mod Agreement
pub mod Confusion
pub mod Keys
use echo_js.Base.{
  ℕ, List, [], ◌∷◌, Bool, true, false, not, ◌&&◌, Option, none, some, length, Outcome, ok, aborted,
  ◌>>=◌, ◌==◌, ◌!=◌, same_bool, if◌then◌else◌,
}
use echo_js.Ejsval.{
  to_tag, is_number, is_undefined, is_null, is_string, is_boolean, is_symbol, to_boolean,
  to_pointer, double_is_nan, double_eq, double_is_negzero, is_double,
}

-- The primitive strings in memory: the code units of the flattened string at an address, without
-- the terminating zero; `none` where no string is. The `length` field is the number of units.
abbrev pub Memory : Type 0
Memory = ℕ → Option (List ℕ)

-- `*s`, the zero behind the last unit included
abbrev unit_at : List ℕ → ℕ
unit_at [] = 0
unit_at (x ∷ xs) = x

-- whether ucs2_strcmp returns 0: the loop stops at the first zero that both strings have
unfoldable pub ucs2_strcmp_zero : List ℕ → List ℕ → Bool
ucs2_strcmp_zero [] ys = unit_at ys == 0
ucs2_strcmp_zero (x ∷ xs) [] = x == 0
ucs2_strcmp_zero (x ∷ xs) (y ∷ ys) =
    let rest = ucs2_strcmp_zero xs ys in if x == y then (if x == 0 then true else rest) else false

-- EJSVAL_TO_STRING, where the address holds a string
unfoldable pub string_at : Memory → ℕ → Outcome (List ℕ)
string_at mem v = elim (mem (to_pointer v)) [ some s ↦ ok s | none ↦ aborted ]

-- the string case of all three: lengths first, then the units
unfoldable pub same_string : Memory → ℕ → ℕ → Outcome Bool
unfolding string_at ucs2_strcmp_zero
same_string mem x y = do
  s ← string_at mem x
  t ← string_at mem y
  if length s != length t then ok false else ok (ucs2_strcmp_zero s t)

-- the number case of SameValue; the test of step c reads `EJSDOUBLE_IS_NEGZERO (x) == 0.0`
unfoldable pub same_value_number : ℕ → ℕ → Bool
unfolding double_is_nan double_eq double_is_negzero
same_value_number x y =
    if double_is_nan x && double_is_nan y
    then true
    else if double_eq x 0 && double_is_negzero y
    then false
    else if not (double_is_negzero x) && double_eq y 0
    then false
    else double_eq x y

unfoldable pub same_value : Memory → ℕ → ℕ → Outcome Bool
same_value mem x y =
    if to_tag x != to_tag y
    then ok false
    else if is_undefined x
    then ok true
    else if is_null x
    then ok true
    else if is_number x
    then ok (same_value_number x y)
    else if is_string x
    then same_string mem x y
    else if is_boolean x
    then ok (to_boolean x == to_boolean y)
    else if is_symbol x
    then aborted
    else ok (x == y)

-- the number case of SameValueZero
unfoldable pub same_value_zero_number : ℕ → ℕ → Bool
unfolding double_is_nan double_eq double_is_negzero
same_value_zero_number x y =
    if double_is_nan x && double_is_nan y
    then true
    else if double_eq x 0 && double_is_negzero y
    then true
    else if double_is_negzero x && double_eq y 0
    then true
    else double_eq x y

unfoldable pub same_value_zero : Memory → ℕ → ℕ → Outcome Bool
same_value_zero mem x y =
    if not (same_bool (is_number x) (is_number y)) && (to_tag x != to_tag y)
    then ok false
    else if is_undefined x
    then ok true
    else if is_null x
    then ok true
    else if is_number x
    then ok (same_value_zero_number x y)
    else if is_string x
    then same_string mem x y
    else if is_boolean x
    then ok (to_boolean x == to_boolean y)
    else if is_symbol x
    then aborted
    else ok (x == y)

-- the number case of the strict equality
unfoldable pub strict_eq_number : ℕ → ℕ → Bool
unfolding double_is_nan double_eq double_is_negzero
strict_eq_number x y =
    if double_is_nan x
    then false
    else if double_is_nan y
    then false
    else if double_eq x y
    then true
    else if double_eq x 0 && double_is_negzero y
    then true
    else not (double_is_negzero x) && double_eq y 0

-- _ejs_op_strict_eq
unfoldable pub strict_eq : Memory → ℕ → ℕ → Outcome Bool
strict_eq mem x y =
    if to_tag x != to_tag y
    then ok false
    else if is_undefined x
    then ok true
    else if is_null x
    then ok true
    else if is_number x
    then ok (strict_eq_number x y)
    else if is_string x
    then same_string mem x y
    else if is_boolean x
    then ok (to_boolean x == to_boolean y)
    else ok (x == y)
