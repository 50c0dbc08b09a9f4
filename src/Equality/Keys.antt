-- ===== src/Equality/Keys.antt =====
-- The values that SameValueZero finds the same as themselves, and what a Map stores for them.
use echo_js.Base.{
  ℕ, ◌+◌, ◌*◌, ◌<◌, ◌^◌, bit_or, ◌≡◌, refl, List, true, false, some, arith, ok,
  or_of_fields_flipped,
}
use echo_js.Ejsval.{
  to_tag, is_double, is_undefined, is_null, is_string, is_boolean, is_symbol, to_boolean,
  double_is_negzero_lem,
}
use echo_js.Ejsval.View.{
  View, double, int32, boolean, magic, string, closureenv, symbol, object, undefined, null, encode,
  Fits,
}
use echo_js.Ejsval.Boxing.{tests-string}
use echo_js.Equality.{Memory, same_string, string_at, same_value_zero}
use echo_js.Equality.Strings.{ucs2_strcmp_zero_refl}
use echo_js.Equality.Numbers.{same_value_zero_number_lem}
use echo_js.Objects.{is_no_iter_value, no_iter_value}
use echo_js.MapData.{normalise}

-- A value that a program can use as a key and that the comparison implements: no symbol and no
-- internal marker, and a string that is in memory.
abbrev pub IsKey : Memory → View → Type 0
IsKey mem (double d) = Unit
IsKey mem (boolean b) = Unit
IsKey mem (string p) = (s : List ℕ) × (mem p ≡ some s)
IsKey mem (object p) = Unit
IsKey mem undefined = Unit
IsKey mem null = Unit
IsKey mem _ = ⊥

box : (tag p : ℕ) → p < 2 ^ 47 → bit_or p (tag * 2 ^ 47) ≡ tag * 2 ^ 47 + p
box tag p h = or_of_fields_flipped 47 tag p h

same_string_refl :
    (mem : Memory) (p : ℕ) (s : List ℕ)
    → p < 2 ^ 47
    → mem p ≡ some s
    → same_string mem (encode (string p)) (encode (string p)) ≡ ok true
unfolding same_string string_at
same_string_refl mem p s h e = ground (arith, tests-string p h, ucs2_strcmp_zero_refl s)

same_value_zero_string_refl :
    (mem : Memory) (p : ℕ) (s : List ℕ)
    → p < 2 ^ 47
    → mem p ≡ some s
    → same_value_zero mem (encode (string p)) (encode (string p)) ≡ ok true
unfolding same_value_zero
same_value_zero_string_refl mem p s h e =
    ground (arith, tests-string p h, same_string_refl mem p s h e)

-- A key is the same as what a Map stores for it.
pub same_value_zero-normalise :
    (mem : Memory) (v : View)
    → Fits v
    → IsKey mem v
    → same_value_zero mem (normalise (encode v)) (encode v) ≡ ok true
unfolding same_value_zero normalise encode is_undefined is_null is_string is_boolean is_symbol
    to_boolean to_tag
same_value_zero-normalise mem (double d) h k =
    ground (
      arith,
      double_is_negzero_lem d,
      same_value_zero_number_lem d d,
      same_value_zero_number_lem 0 d,
    )
same_value_zero-normalise mem (boolean b) h k = ground (arith, box 0x1FFF3 b)
same_value_zero-normalise mem (string p) h k =
    ground (arith, tests-string p h.1, same_value_zero_string_refl mem p k.0 h.1 k.1)
same_value_zero-normalise mem (object p) h k = ground (arith, box 0x1FFF9 p)
same_value_zero-normalise mem (int32 _) h k = elim k [ ]
same_value_zero-normalise mem (magic _) h k = elim k [ ]
same_value_zero-normalise mem (closureenv _) h k = elim k [ ]
same_value_zero-normalise mem (symbol _) h k = elim k [ ]
same_value_zero-normalise mem undefined h k = refl
same_value_zero-normalise mem null h k = refl

-- What a Map stores for a key is no empty marker.
pub is_no_iter_value-normalise :
    (mem : Memory) (v : View)
    → Fits v
    → IsKey mem v
    → is_no_iter_value (normalise (encode v)) ≡ false
unfolding normalise encode is_no_iter_value is_double
is_no_iter_value-normalise mem (double d) h k = ground arith
is_no_iter_value-normalise mem (boolean b) h k = ground (arith, box 0x1FFF3 b)
is_no_iter_value-normalise mem (string p) h k = ground (arith, box 0x1FFF5 p)
is_no_iter_value-normalise mem (object p) h k = ground (arith, box 0x1FFF9 p)
is_no_iter_value-normalise mem (int32 _) h k = elim k [ ]
is_no_iter_value-normalise mem (magic _) h k = elim k [ ]
is_no_iter_value-normalise mem (closureenv _) h k = elim k [ ]
is_no_iter_value-normalise mem (symbol _) h k = elim k [ ]
is_no_iter_value-normalise mem undefined h k = refl
is_no_iter_value-normalise mem null h k = refl

-- The empty marker is the same as no key.
pub same_value_zero-no_iter_value :
    (mem : Memory) (v : View)
    → Fits v
    → IsKey mem v
    → same_value_zero mem no_iter_value (encode v) ≡ ok false
unfolding same_value_zero encode no_iter_value is_double is_undefined is_null is_string is_boolean
    is_symbol to_tag
same_value_zero-no_iter_value mem (double d) h k = ground arith
same_value_zero-no_iter_value mem (boolean b) h k = ground (arith, box 0x1FFF3 b)
same_value_zero-no_iter_value mem (string p) h k = ground (arith, box 0x1FFF5 p)
same_value_zero-no_iter_value mem (object p) h k = ground (arith, box 0x1FFF9 p)
same_value_zero-no_iter_value mem (int32 _) h k = elim k [ ]
same_value_zero-no_iter_value mem (magic _) h k = elim k [ ]
same_value_zero-no_iter_value mem (closureenv _) h k = elim k [ ]
same_value_zero-no_iter_value mem (symbol _) h k = elim k [ ]
same_value_zero-no_iter_value mem undefined h k = refl
same_value_zero-no_iter_value mem null h k = refl
