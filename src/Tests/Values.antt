-- ===== src/Tests/Values.antt =====
-- runtime/ejsval.h and the comparisons of runtime/ejs-ops.c at concrete words.
use echo_js.Base.{
  ℕ, ◌≡◌, refl, List, [], ◌∷◌, true, false, none, some, ok, aborted, arith, ◌==◌, ◌||◌,
  if◌then◌else◌,
}
use echo_js.Ejsval.View.{string, object, encode, decode}
use echo_js.Ejsval.Boxing.{decode-encode}
use echo_js.Equality.{Memory, same_value_zero, strict_eq}
use echo_js.Tests.Opened.{comparing}
use echo_js.Equality.Agreement.{same_units, same_value_zero-Alike, strings}

-- "ab" at 16 and at 32, and "ac" at 48
abbrev mem : Memory
mem p =
    if p == 16 || p == 32
    then some (97 ∷ 98 ∷ [])
    else if p == 48
    then some (97 ∷ 99 ∷ [])
    else none

decode-encode_example : decode (encode (object 4096)) ≡ some (object 4096)
decode-encode_example = decode-encode (object 4096) (omega arith)

abbrev ab : List ℕ
ab = 97 ∷ 98 ∷ []

abbrev ac : List ℕ
ac = 97 ∷ 99 ∷ []

same_value_zero-Alike_example :
    same_value_zero mem (encode (string 16)) (encode (string 48)) ≡ ok (same_units ab ac)
same_value_zero-Alike_example =
    same_value_zero-Alike (strings 16 48 ab ac refl refl (omega arith) (omega arith)) (omega arith)
      (omega arith)

-- two equal strings at two addresses, and a number beside its negative zero
runs :
    (same_value_zero mem (encode (string 16)) (encode (string 32)) ≡ ok true)
    × (same_value_zero mem 0 (0x8000000000000000) ≡ ok true)
    × (strict_eq mem 0 (0x8000000000000000) ≡ ok false)
    × (same_value_zero mem (encode (string 16)) (encode (object 64)) ≡ aborted)
unfolding comparing
runs = (refl, refl, refl, refl)
