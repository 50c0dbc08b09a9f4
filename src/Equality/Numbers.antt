-- ===== src/Equality/Numbers.antt =====
-- The number cases of the three comparisons against the comparison of doubles.
use echo_js.Base.{ℕ, ◌<◌, ◌^◌, ◌≡◌, true, false, ◌&&◌, ◌||◌, arith, ◌==◌}
use echo_js.Ejsval.{double_is_nan, double_is_zero, double_eq, double_is_negzero_lem}
use echo_js.Equality.{same_value_number, same_value_zero_number, strict_eq_number}

-- SameValueZero on numbers: both NaN, or equal doubles. So both zeros are the same.
pub same_value_zero_number_lem :
    (x y : ℕ)
    → x < 2 ^ 64
    → y < 2 ^ 64
    → same_value_zero_number x y ≡ (double_is_nan x && double_is_nan y) || double_eq x y
unfolding same_value_zero_number
same_value_zero_number_lem x y hx hy =
    ground (arith, double_is_negzero_lem x hx, double_is_negzero_lem y hy)

-- Away from the zeros SameValue on numbers is the comparison of the bits, but for the NaNs.
pub same_value_number_of_nonzero :
    (x y : ℕ)
    → x < 2 ^ 64
    → y < 2 ^ 64
    → double_is_zero x ≡ false
    → same_value_number x y ≡ (double_is_nan x && double_is_nan y) || double_eq x y
unfolding same_value_number
same_value_number_of_nonzero x y hx hy z =
    ground (arith, double_is_negzero_lem x hx, double_is_negzero_lem y hy)

-- Between zeros the test of step c turns the answer round: -0 and +0 are the only two zeros that
-- the number case of SameValue takes for the same, and no zero is the same as itself.
pub same_value_number_of_zeros :
    (x y : ℕ)
    → x < 2 ^ 64
    → y < 2 ^ 64
    → double_is_zero x ≡ true
    → double_is_zero y ≡ true
    → same_value_number x y ≡ (x == 2 ^ 63) && (y == 0)
unfolding same_value_number
same_value_number_of_zeros x y hx hy zx zy =
    ground (arith, double_is_negzero_lem x hx, double_is_negzero_lem y hy)

-- The number case of the strict equality: equal doubles, or a right side that is a zero with a
-- left side that is no NaN and not -0.
pub strict_eq_number_lem :
    (x y : ℕ)
    → x < 2 ^ 64
    → y < 2 ^ 64
    → double_is_nan x ≡ false
    → strict_eq_number x y ≡ double_eq x y || double_is_zero y
unfolding strict_eq_number
strict_eq_number_lem x y hx hy n =
    ground (arith, double_is_negzero_lem x hx, double_is_negzero_lem y hy)
