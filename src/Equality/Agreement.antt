-- ===== src/Equality/Agreement.antt =====
-- SameValueZero, SameValue and the strict equality on boxed values, against what they mean.
use echo_js.Base.{
  ℕ, ◌+◌, ◌*◌, ◌<◌, ◌^◌, bit_or, ◌≡◌, refl, ◌∙◌, List, [], ◌∷◌, Bool, true, false, ◌&&◌, ◌||◌, some,
  arith, ◌==◌, or_of_fields_flipped, ok, length,
}
use echo_js.Ejsval.{
  to_tag, is_double, is_undefined, is_null, is_string, is_boolean, is_symbol, to_boolean,
  double_is_nan, double_eq,
}
use echo_js.Ejsval.View.{View, double, boolean, string, object, undefined, null, encode, Fits}
use echo_js.Ejsval.Boxing.{tests-string}
use echo_js.Equality.{Memory, same_string, string_at, ucs2_strcmp_zero, same_value_zero}
use echo_js.Equality.Strings.{IsNulFree}
use echo_js.Equality.Numbers.{same_value_zero_number_lem}

box : (tag p : ℕ) → p < 2 ^ 47 → bit_or p (tag * 2 ^ 47) ≡ tag * 2 ^ 47 + p
box tag p h = or_of_fields_flipped 47 tag p h

-- Equality of two strings, unit by unit.
unfoldable pub same_units : List ℕ → List ℕ → Bool
same_units [] [] = true
same_units [] (y ∷ ys) = false
same_units (x ∷ xs) [] = false
same_units (x ∷ xs) (y ∷ ys) = x == y && same_units xs ys

strcmp-same_units :
    (xs ys : List ℕ) → IsNulFree xs → IsNulFree ys → ucs2_strcmp_zero xs ys ≡ same_units xs ys
unfolding ucs2_strcmp_zero same_units
strcmp-same_units [] [] hx hy = refl
strcmp-same_units [] (y ∷ ys) hx hy = ground arith
strcmp-same_units (x ∷ xs) [] hx hy = ground arith
strcmp-same_units (x ∷ xs) (y ∷ ys) hx hy = ground (arith, strcmp-same_units xs ys hx.1 hy.1)

same_units-length : (xs ys : List ℕ) → same_units xs ys ≡ true → length xs ≡ length ys
unfolding same_units
same_units-length [] [] h = refl
same_units-length [] (y ∷ ys) h = ground arith
same_units-length (x ∷ xs) [] h = ground arith
same_units-length (x ∷ xs) (y ∷ ys) h = ground (arith, same_units-length xs ys)

pub same_string_lem :
    (mem : Memory) (p q : ℕ) (s t : List ℕ)
    → p < 2 ^ 47
    → q < 2 ^ 47
    → mem p ≡ some s
    → mem q ≡ some t
    → IsNulFree s
    → IsNulFree t
    → same_string mem (encode (string p)) (encode (string q)) ≡ ok (same_units s t)
unfolding same_string string_at
same_string_lem mem p q s t hp hq es et ns nt = ground (
  arith,
  (tests-string p hp).5,
  (tests-string q hq).5,
  strcmp-same_units s t ns nt,
  same_units-length s t,
)

-- What the comparison that takes -0 for +0 means, on two values of one type: `Alike mem v w b`
-- if the answer is `b`.
pub data Alike (mem : Memory) : View → View → Bool → Type 0 where
  doubles :
      (x y : ℕ)
      → Alike mem (double x) (double y) ((double_is_nan x && double_is_nan y) || double_eq x y)
  strings :
      (p q : ℕ) (s t : List ℕ)
      → mem p ≡ some s
      → mem q ≡ some t
      → IsNulFree s
      → IsNulFree t
      → Alike mem (string p) (string q) (same_units s t)
  booleans : (x y : ℕ) → Alike mem (boolean x) (boolean y) (x == y)
  objects : (p q : ℕ) → Alike mem (object p) (object q) (p == q)
  both_undefined : Alike mem undefined undefined true
  both_null : Alike mem null null true

same_value_zero-strings :
    (mem : Memory) (p q : ℕ)
    → p < 2 ^ 47
    → q < 2 ^ 47
    → same_value_zero mem (encode (string p)) (encode (string q))
      ≡ same_string mem (encode (string p)) (encode (string q))
unfolding same_value_zero
same_value_zero-strings mem p q hp hq = ground (arith, tests-string p hp, tests-string q hq)

-- On two values in range that are both doubles, both strings in memory without an embedded zero,
-- both booleans, both objects, both undefined or both null, SameValueZero returns whether they are
-- the same: doubles as numbers, where NaN is the same as NaN, strings by their units, objects by
-- address, and undefined and null always.
pub same_value_zero-Alike :
    {mem : Memory} {v w : View} {b : Bool}
    → Alike mem v w b
    → Fits v
    → Fits w
    → same_value_zero mem (encode v) (encode w) ≡ ok b
unfolding same_value_zero encode is_double is_undefined is_null is_string is_boolean is_symbol
    to_boolean to_tag
same_value_zero-Alike (doubles x y) h k = ground (arith, same_value_zero_number_lem x y)
same_value_zero-Alike {mem} (strings p q s t es et ns nt) h k =
    same_value_zero-strings mem p q h.1 k.1 ∙ same_string_lem mem p q s t h.1 k.1 es et ns nt
same_value_zero-Alike (booleans x y) h k = ground (arith, box 0x1FFF3 x, box 0x1FFF3 y)
same_value_zero-Alike (objects p q) h k = ground (arith, box 0x1FFF9 p, box 0x1FFF9 q)
same_value_zero-Alike both_undefined h k = refl
same_value_zero-Alike both_null h k = refl
