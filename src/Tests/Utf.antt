-- ===== src/Tests/Utf.antt =====
-- The conversions of runtime/ejs-string.c at concrete characters.
use echo_js.Base.{ℕ, ◌≡◌, refl, inl, List, [], ◌∷◌, ◌++◌, length, ok, aborted, arith}
use echo_js.Utf.{
  surrogate_bytes, utf16_to_utf8_char, ucs2_to_utf8_char, byte, utf8_to_ucs2,
  codepoint_to_codeunits,
}
use echo_js.Utf.Roundtrip.{utf8_to_ucs2-utf16_to_utf8_char}

-- the euro sign, in front of an "A"
utf8_to_ucs2-utf16_to_utf8_char_example :
    (bytes : List ℕ) × (utf16_to_utf8_char 0x20AC 0 ≡ ok (bytes, 1))
    × (utf8_to_ucs2 (bytes ++ (65 ∷ [])) ≡ (0x20AC, length bytes))
utf8_to_ucs2-utf16_to_utf8_char_example =
    utf8_to_ucs2-utf16_to_utf8_char 0x20AC 0 (65 ∷ []) (omega arith) (omega arith)
      (inl (omega arith))

euro_test : utf16_to_utf8_char 0x20AC 0 ≡ ok (0xE2 ∷ 0x82 ∷ 0xAC ∷ [], 1)
unfolding utf16_to_utf8_char
euro_test = refl

-- U+1F600, through its surrogates
units_test : codepoint_to_codeunits 0x1F600 ≡ ok (0xD83D ∷ 0xDE00 ∷ [])
unfolding codepoint_to_codeunits
units_test = refl

surrogates_test : utf16_to_utf8_char 0xD83D 0xDE00 ≡ ok (0xF0 ∷ 0x9F ∷ 0x98 ∷ 0x80 ∷ [], 2)
unfolding utf16_to_utf8_char surrogate_bytes
surrogates_test = refl

-- The reader takes four bytes for three.
four_bytes_test : utf8_to_ucs2 (0xF0 ∷ 0x9F ∷ 0x98 ∷ 0x80 ∷ []) ≡ (0x7D8, 3)
unfolding utf8_to_ucs2 byte
four_bytes_test = refl

-- The last character is converted by one function and not by the other.
last_test :
    (utf16_to_utf8_char 0xFFFF 0 ≡ ok (0xEF ∷ 0xBF ∷ 0xBF ∷ [], 1))
    × (ucs2_to_utf8_char 0xFFFF ≡ aborted)
unfolding utf16_to_utf8_char ucs2_to_utf8_char
last_test = (refl, refl)
