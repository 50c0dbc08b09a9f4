-- ===== src/Equality/Confusion.antt =====
-- SameValueZero on values of two types, and the comparisons that look at the tags.
use echo_js.Base.{ℕ, ◌<◌, ◌^◌, ◌≡◌, ◌≢◌, true, false, arith, ok}
use echo_js.Ejsval.{to_tag, is_double, is_undefined, is_null, double_is_zero}
use echo_js.Ejsval.View.{View, undefined, null, encode, Fits, type_code}
use echo_js.Ejsval.Boxing.{to_tag-ne}
use echo_js.Equality.{Memory, same_value_zero, same_value, strict_eq}
use echo_js.Equality.Numbers.{same_value_number_of_zeros}

-- SameValueZero takes undefined, and null, for the same as any value that is no number: the guard
-- on the types passes two values that are both no numbers, and the next tests look at one side.
same_value_zero_confuses :
    (mem : Memory) (w : ℕ)
    → is_double w ≡ false
    → (same_value_zero mem (encode undefined) w ≡ ok true)
      × (same_value_zero mem (encode null) w ≡ ok true)
unfolding same_value_zero encode is_undefined is_null is_double
same_value_zero_confuses mem w h = (ground arith, ground arith)

-- SameValue and the strict equality are false on values of two types.
different_types :
    (mem : Memory) (v w : View)
    → Fits v
    → Fits w
    → type_code v ≢ type_code w
    → (same_value mem (encode v) (encode w) ≡ ok false)
      × (strict_eq mem (encode v) (encode w) ≡ ok false)
unfolding same_value strict_eq
different_types mem v w hv hw ne =
    (ground (arith, to_tag-ne v w hv hw ne), ground (arith, to_tag-ne v w hv hw ne))

-- SameValue is false between any two zeros, also between a zero and itself.
same_value_of_zeros :
    (mem : Memory) (x y : ℕ)
    → x < 2 ^ 64
    → y < 2 ^ 64
    → double_is_zero x ≡ true
    → double_is_zero y ≡ true
    → same_value mem x y ≡ ok false
unfolding same_value double_is_zero to_tag is_double is_undefined is_null
same_value_of_zeros mem x y hx hy zx zy = ground (arith, same_value_number_of_zeros x y hx hy)
