-- ===== src/Tests/Strings.antt =====
-- The strings of runtime/ejs-string.c at short concrete strings.
use echo_js.Base.{◌≡◌, ◌≢◌, refl, [], ◌∷◌, ◌++◌, some, take, drop, get_elem?, arith}
use echo_js.Strings.{
  PrimString, flat, rope, dependent, ucs2_at, char_code_at, flatten_dep, flatten_rope,
  primstring_flatten, concat, new_substring,
}
use echo_js.Strings.Contents.{contents, IsString, ucs2_at-contents}
use echo_js.Strings.Building.{concat-contents, new_substring-contents}
use echo_js.Strings.Hash.{hash_unit, ucs2_hash, hash_dep, primstring_hash_inner}

-- every function on strings
unfoldable stringing : Unit {0}
unfolding contents ucs2_at char_code_at flatten_dep flatten_rope primstring_flatten concat
    new_substring hash_unit ucs2_hash hash_dep primstring_hash_inner
stringing = tt

-- "ABCDE", its "BC", and a rope of that and "xy"
abbrev letters : PrimString
letters = flat 5 (65 ∷ 66 ∷ 67 ∷ 68 ∷ 69 ∷ [])

abbrev middle : PrimString
middle = dependent 2 letters 1

abbrev joined : PrimString
joined = rope 4 middle (flat 2 (120 ∷ 121 ∷ []))

letters-IsString : IsString letters
letters-IsString = (refl, omega arith)

middle-IsString : IsString middle
middle-IsString = (letters-IsString, omega arith)

joined-IsString : IsString joined
joined-IsString = (middle-IsString, (refl, omega arith), refl, omega arith)

joined-contents : contents joined ≡ 66 ∷ 67 ∷ 120 ∷ 121 ∷ []
unfolding stringing
joined-contents = refl

ucs2_at-contents_example : get_elem? (contents joined) 2 ≡ some (ucs2_at joined 2)
ucs2_at-contents_example = ucs2_at-contents joined 2 joined-IsString (omega arith)

concat-contents_example :
    IsString (concat joined letters)
    × (contents (concat joined letters) ≡ contents joined ++ contents letters)
concat-contents_example =
    concat-contents joined letters joined-IsString letters-IsString (tt, tt) tt (omega arith)

new_substring-contents_example :
    IsString (new_substring middle 1 1)
    × (contents (new_substring middle 1 1) ≡ take 1 (drop 1 (contents middle)))
new_substring-contents_example = new_substring-contents middle 1 1 middle-IsString tt (omega arith)

wrong_slice_test : contents (new_substring joined 1 2) ≡ 67 ∷ 68 ∷ []
unfolding stringing
wrong_slice_test = refl

-- A rope of two units, and the flat string of the same units.
hash_of_rope_test :
    primstring_hash_inner (rope 2 (flat 1 (0x100 ∷ [])) (flat 1 (0x101 ∷ []))) 0
    ≢ primstring_hash_inner (flat 2 (0x100 ∷ 0x101 ∷ [])) 0
unfolding stringing
hash_of_rope_test h = omega (arith, h)

-- Every unit of a rope reads as 0xFFFF.
char_code_test : char_code_at joined 1 ≡ 0xFFFF
unfolding stringing
char_code_test = refl
