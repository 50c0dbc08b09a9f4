-- ===== src/NumberText.antt =====
-- How runtime/ejs-ops.c writes an integer in a base, IntToUCS2 and IntToCString. The buffer has
-- UINT32_CHAR_BUFFER_LENGTH places in front of the one of the final 0; it is filled from behind, and
-- a write in front of it is `none`. The base is between 2 and 36, which the callers and an assertion
-- see to.
pub mod Digits
pub mod ParseInt
use echo_js.Base.{
  ℕ, zero, suc, ◌+◌, ◌-◌, ◌*◌, ◌/◌, ◌%◌, ℤ, pos, negsuc, Bool, true, false, Option, none, some,
  List, [], ◌∷◌, ltb, ◌==◌, if◌then◌else◌,
}

-- UINT32_CHAR_BUFFER_LENGTH, sizeof ("4294967295") - 1
abbrev pub uint32_char_buffer_length : ℕ
uint32_char_buffer_length = 10

-- the magnitude of a jsint
abbrev pub magnitude : ℤ → ℕ
magnitude (pos n) = n
magnitude (negsuc n) = n + 1

-- a character of "0123456789abcdefghijklmnopqrstuvwxyz"
unfoldable pub digit_char : ℕ → ℕ
digit_char d = if ltb d 10 then 48 + d else 87 + d

-- The loops of the three cases, which differ in how they compute the same digit: `room` places are
-- left in front of the characters `chars`. The places left and the characters are the result.
unfoldable pub write_digits : ℕ → ℕ → ℕ → List ℕ → Option (ℕ × List ℕ)
unfolding digit_char
write_digits zero base u chars = none
write_digits (suc room) base u chars =
    let next = u / base in
    let digit = if base == 10 then 48 + u % 10 else digit_char (u - next * base) in
    elim (next == 0) [
      | true ↦ some (room, digit ∷ chars)
      | false ↦ write_digits room base next (digit ∷ chars)
    ]

-- the sign in front of the digits
unfoldable pub write_sign : Option (ℕ × List ℕ) → Option (List ℕ)
write_sign none = none
write_sign (some (zero, chars)) = none
write_sign (some (suc room, chars)) = some (45 ∷ chars)

-- no sign
unfoldable pub written : Option (ℕ × List ℕ) → Option (List ℕ)
written none = none
written (some (room, chars)) = some chars

-- IntToUCS2, without the final 0
unfoldable pub int_to_ucs2 : ℤ → ℕ → Option (List ℕ)
int_to_ucs2 (pos n) base = written (write_digits uint32_char_buffer_length base n [])
int_to_ucs2 (negsuc n) base = write_sign (write_digits uint32_char_buffer_length base (n + 1) [])

-- IntToCString, which returns before the sign in base 10
unfoldable pub int_to_cstring : ℤ → ℕ → Option (List ℕ)
int_to_cstring i base =
    if base == 10
    then written (write_digits uint32_char_buffer_length base (magnitude i) [])
    else int_to_ucs2 i base
