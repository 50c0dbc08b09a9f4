-- ===== src/NumberText/ParseInt.antt =====
-- parseInt of runtime/ejs-ops.c, from the code units of the string and the integer of the radix on.
pub mod Reading
use echo_js.Base.{
  ℕ, zero, suc, ◌+◌, ◌-◌, ◌*◌, ◌%◌, ◌^◌, ℤ, pos, negsuc, Bool, true, false, not, ◌&&◌, ◌||◌, Option,
  none, some, List, [], ◌∷◌, ltb, leb, ◌==◌, if◌then◌else◌,
}

-- NaN, a number, or an abort by EJS_NOT_IMPLEMENTED
pub data ParsedInt : Type 0 where
  nan : ParsedInt
  number : ℤ → ParsedInt
  not_implemented : ParsedInt

-- the place of `c` in radix_8_chars, radix_10_chars, or radix_16_chars and radix_16up_chars
unfoldable pub radix_digit : ℕ → ℕ → Option ℕ
radix_digit R c =
    if leb 48 c && ltb c 58 && ltb c (48 + R)
    then some (c - 48)
    else if R == 16 && leb 97 c && ltb c 103
    then some (c - 87)
    else if R == 16 && leb 65 c && ltb c 71
    then some (c - 55)
    else none

-- the first loop: how many digits there are in front
unfoldable pub count_digits : ℕ → List ℕ → ℕ
count_digits R [] = 0
count_digits R (c ∷ cs) = elim (radix_digit R c) [ none ↦ 0 | some d ↦ suc (count_digits R cs) ]

-- the second loop, on an int that wraps around
unfoldable pub math_int : ℕ → ℕ → List ℕ → ℕ → ℕ
math_int R zero cs w = w
math_int R (suc n) [] w = w
math_int R (suc n) (c ∷ cs) w = elim (radix_digit R c) [
  | none ↦ w
  | some digitval ↦ math_int R n cs ((w * R + digitval) % 2 ^ 32)
]

-- mathInt * sign, as an int32_t
unfoldable pub signed_number : Bool → ℕ → ℤ
signed_number is_negative w =
    let n = if is_negative then (2 ^ 32 - w) % 2 ^ 32 else w in
    if ltb n (2 ^ 31) then pos n else negsuc (2 ^ 32 - 1 - n)

-- steps 11 to 15
unfoldable pub read_number : Bool → ℕ → List ℕ → ParsedInt
read_number is_negative R S =
    if not (R == 8 || R == 10 || R == 16) then not_implemented else elim (count_digits R S) [
      | zero ↦ nan
      | suc n ↦ number (signed_number is_negative (math_int R (suc n) S 0))
    ]

-- step 10
unfoldable pub strip_prefix : ℕ → List ℕ → ℕ × List ℕ
strip_prefix R (z ∷ x ∷ c ∷ S) =
    if z == 48 && (x == 120 || x == 88) then (16, c ∷ S) else (R, z ∷ x ∷ c ∷ S)
strip_prefix R S = (R, S)

-- steps 7 to 15. The radix is `none` when it is undefined.
unfoldable pub read_in_radix : Bool → List ℕ → Option ℤ → ParsedInt
read_in_radix is_negative S none = let (R, Z) = strip_prefix 10 S in read_number is_negative R Z
read_in_radix is_negative S (some (negsuc n)) = nan
read_in_radix is_negative S (some (pos zero)) =
    let (R, Z) = strip_prefix 10 S in read_number is_negative R Z
read_in_radix is_negative S (some (pos (suc r))) =
    if ltb (suc r) 2 || ltb 36 (suc r)
    then nan
    else if suc r == 16
    then (let (R, Z) = strip_prefix 16 S in read_number is_negative R Z)
    else read_number is_negative (suc r) S

-- _ejs_parseInt_impl, with the sign of steps 4 and 5
unfoldable pub parse_int : List ℕ → Option ℤ → ParsedInt
parse_int [] radix = read_in_radix false [] radix
parse_int (c ∷ S) radix =
    if c == 45
    then read_in_radix true S radix
    else if c == 43
    then read_in_radix false S radix
    else read_in_radix false (c ∷ S) radix
