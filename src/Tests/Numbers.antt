-- ===== src/Tests/Numbers.antt =====
-- The text of a few integers, as runtime/ejs-ops.c writes them.
use echo_js.Base.{ℕ, ◌≡◌, refl, pos, negsuc, List, [], ◌∷◌, none, some, inr, arith}
use echo_js.NumberText.{digit_char, write_digits, write_sign, written, int_to_ucs2, int_to_cstring}
use echo_js.NumberText.ParseInt.{
  nan, number, not_implemented, radix_digit, count_digits, math_int, signed_number, read_number,
  strip_prefix, read_in_radix, parse_int,
}
use echo_js.NumberText.ParseInt.Reading.{parse_int-int_to_ucs2}
use echo_js.NumberText.Digits.{read_int, read_int-int_to_ucs2, int_to_ucs2_overruns}

-- every function on texts of numbers
unfoldable writing : Unit {0}
unfolding digit_char write_digits write_sign written int_to_ucs2 int_to_cstring radix_digit
    count_digits math_int signed_number read_number strip_prefix read_in_radix parse_int
writing = tt

-- -255 in base 16 is "-ff".
hexadecimal_test : int_to_ucs2 (negsuc 254) 16 ≡ some (45 ∷ 102 ∷ 102 ∷ [])
unfolding writing
hexadecimal_test = refl

read_int-int_to_ucs2_example :
    (cs : List ℕ) × (int_to_ucs2 (negsuc 254) 16 ≡ some cs) × (read_int 16 cs ≡ negsuc 254)
read_int-int_to_ucs2_example =
    read_int-int_to_ucs2 16 (omega arith) (omega arith) (negsuc 254) (omega arith)

-- the ten digits and the sign of -1234567890
int_to_ucs2_overruns_example : int_to_ucs2 (negsuc 1234567889) 10 ≡ none
int_to_ucs2_overruns_example =
    int_to_ucs2_overruns 10 (omega arith) (omega arith) (negsuc 1234567889) (omega arith)

-- 1024 in base 2 has eleven digits.
binary_test : int_to_ucs2 (pos 1024) 2 ≡ none
unfolding writing
binary_test = refl

-- IntToCString writes -7 as "7" in base 10, and as "-7" in base 8.
unsigned_test : int_to_cstring (negsuc 6) 10 ≡ some (55 ∷ [])
unfolding writing
unsigned_test = refl

signed_test : int_to_cstring (negsuc 6) 8 ≡ some (45 ∷ 55 ∷ [])
unfolding writing
signed_test = refl

parse_int-int_to_ucs2_example :
    (cs : List ℕ) × (int_to_ucs2 (negsuc 254) 16 ≡ some cs)
    × (parse_int cs (some (pos 16)) ≡ number (negsuc 254))
parse_int-int_to_ucs2_example =
    parse_int-int_to_ucs2 16 (inr (inr refl)) (negsuc 254) (omega arith) (omega arith)

-- "0x1F" in no radix is 31.
prefix_test : parse_int (48 ∷ 120 ∷ 49 ∷ 70 ∷ []) none ≡ number (pos 31)
unfolding writing
prefix_test = refl

-- "2147483648" wraps around to a negative number.
wrapped_test :
    parse_int (50 ∷ 49 ∷ 52 ∷ 55 ∷ 52 ∷ 56 ∷ 51 ∷ 54 ∷ 52 ∷ 56 ∷ []) none
    ≡ number (negsuc 2147483647)
unfolding writing
wrapped_test = refl

-- " 1" is not a number, since white space is not skipped.
space_test : parse_int (32 ∷ 49 ∷ []) none ≡ nan
unfolding writing
space_test = refl

-- "1" in base 2
radix_test : parse_int (49 ∷ []) (some (pos 2)) ≡ not_implemented
unfolding writing
radix_test = refl
