-- ===== src/Ejsval/Double.antt =====
-- The IEEE 754 doubles of C, as their 64 bits, and EJSDOUBLE_IS_NEGZERO of runtime/ejsval.h.
use echo_js.Base.{
  ℕ, ◌/◌, ◌%◌, ◌^◌, ◌<◌, bit_and, ◌≡◌, refl, ◌⊎◌, inl, inr, Bool, true, false, not, ◌&&◌, ◌||◌,
  arith, ltb, ◌==◌, ◌!=◌, if◌then◌else◌, Bool-cases,
}

-- isnan
unfoldable pub double_is_nan : ℕ → Bool
double_is_nan d = ltb 0x7FF0000000000000 (d % 2 ^ 63)

unfoldable pub double_is_zero : ℕ → Bool
double_is_zero d = d % 2 ^ 63 == 0

-- `==` between doubles: no NaN equals anything, and the zeros of both signs are equal
unfoldable pub double_eq : ℕ → ℕ → Bool
unfolding double_is_nan double_is_zero
double_eq a b =
    not (double_is_nan a)
    && not (double_is_nan b)
    && (a == b || (double_is_zero a && double_is_zero b))

-- EJSDOUBLE_IS_NEGZERO
unfoldable pub double_is_negzero : ℕ → Bool
unfolding double_eq
double_is_negzero d = if not (double_eq d 0) then false else bit_and (d / 2 ^ 32) 0x80000000 != 0

zero_words : (d : ℕ) → d < 2 ^ 64 → double_is_zero d ≡ true → (d ≡ 0) ⊎ (d ≡ 2 ^ 63)
unfolding double_is_zero
zero_words d h z = ground arith

pub double_eq_zero : (d : ℕ) → double_eq d 0 ≡ double_is_zero d
unfolding double_eq
double_eq_zero d = ground arith

pub double_eq_nan : (d : ℕ) → double_is_nan d ≡ not (double_eq d d)
unfolding double_eq
double_eq_nan d = ground arith

negzero_of_nonzero : (d : ℕ) → double_is_zero d ≡ false → double_is_negzero d ≡ (d == 2 ^ 63)
unfolding double_is_negzero
negzero_of_nonzero d h = ground arith

negzero_of_zero : (d : ℕ) → (d ≡ 0) ⊎ (d ≡ 2 ^ 63) → double_is_negzero d ≡ (d == 2 ^ 63)
unfolding double_is_negzero
negzero_of_zero d (inl e) = rw e refl
negzero_of_zero d (inr e) = rw e refl

-- On a 64-bit word the test recognises one word, the one whose only bit is the sign.
pub double_is_negzero_lem : (d : ℕ) → d < 2 ^ 64 → double_is_negzero d ≡ (d == 2 ^ 63)
double_is_negzero_lem d h = elim (Bool-cases (double_is_zero d)) [
  | inl z ↦ negzero_of_zero d (zero_words d h z)
  | inr z ↦ negzero_of_nonzero d z
]
