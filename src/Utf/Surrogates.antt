-- ===== src/Utf/Surrogates.antt =====
-- A code point behind the first plane, of which runtime/ejs-string.c makes a pair of surrogates.
use echo_js.Base.{
  ℕ, ◌+◌, ◌-◌, ◌*◌, ◌/◌, ◌%◌, ◌^◌, ◌≤◌, ◌<◌, bit_or, ◌≡◌, ap, ◌∙◌, List, [], ◌∷◌, ok, or_of_fields,
  arith,
}
use echo_js.Utf.{surrogate_bytes, utf16_to_utf8_char, codepoint_to_codeunits}
use echo_js.Utf.Roundtrip.{or_to}

module _ (c : ℕ) where
  abbrev first_unit : ℕ
  first_unit = (c - 0x10000) / 1024 + 0xD800

  abbrev second_unit : ℕ
  second_unit = (c - 0x10000) % 1024 + 0xDC00

  abbrev four_bytes : List ℕ
  four_bytes =
      (0xF0 + c / 2 ^ 18)
      ∷ (0x80 + c / 2 ^ 12 % 2 ^ 6)
      ∷ (0x80 + c / 2 ^ 6 % 2 ^ 6)
      ∷ (0x80 + c % 2 ^ 6)
      ∷ []

  -- The pair has the code point.
  combined :
      0x10000 ≤ c
      → c ≤ 0x10FFFF
      → (0x10000
            + bit_or ((first_unit - 0xD800) * 2 ^ 10) ((second_unit + 2 ^ 32 - 0xDC00) % 2 ^ 32))
          % 2 ^ 32
        ≡ c
  combined h k =
      let joined =
        or_to ((first_unit - 0xD800) * 2 ^ 10) ((second_unit + 2 ^ 32 - 0xDC00) % 2 ^ 32)
          ((c - 0x10000) / 2 ^ 10) ((c - 0x10000) % 2 ^ 10) 10 (omega arith) (omega arith)
          (omega arith) in
      ap (λ (x : ℕ). (0x10000 + x) % 2 ^ 32) joined ∙ omega arith

  lead_four : c ≤ 0x10FFFF → bit_or 0xF0 (c / 2 ^ 18) % 2 ^ 8 ≡ 0xF0 + c / 2 ^ 18
  lead_four k = omega (arith, or_of_fields 3 30 (c / 2 ^ 18) (omega arith))

  next : (x : ℕ) → x < 2 ^ 6 → bit_or 0x80 x ≡ 0x80 + x
  next x h = omega (arith, or_of_fields 6 2 x h)

  surrogate_bytes_of :
      0x10000 ≤ c → c ≤ 0x10FFFF → surrogate_bytes first_unit second_unit ≡ four_bytes
  unfolding surrogate_bytes
  surrogate_bytes_of h k = ground (
    arith,
    combined h k,
    lead_four k,
    next (c / 2 ^ 12 % 2 ^ 6) (omega arith),
    next (c / 2 ^ 6 % 2 ^ 6) (omega arith),
    next (c % 2 ^ 6) (omega arith),
  )

-- A code point from U+10000 to U+10FFFF becomes two units, of which utf16_to_utf8_char uses both
-- and writes the four bytes of the UTF-8 encoding of the code point.
utf16_to_utf8_char-codepoint_to_codeunits :
    (c : ℕ)
    → 0x10000 ≤ c
    → c ≤ 0x10FFFF
    → (first : ℕ) × (second : ℕ) × (codepoint_to_codeunits c ≡ ok (first ∷ second ∷ []))
      × (utf16_to_utf8_char first second
          ≡ ok (
            (0xF0 + c / 2 ^ 18)
                ∷ (0x80 + c / 2 ^ 12 % 2 ^ 6)
                ∷ (0x80 + c / 2 ^ 6 % 2 ^ 6)
                ∷ (0x80 + c % 2 ^ 6)
                ∷ [],
            2,
          ))
unfolding codepoint_to_codeunits utf16_to_utf8_char
utf16_to_utf8_char-codepoint_to_codeunits c h k =
    (first_unit c, second_unit c, ground arith, ground (arith, surrogate_bytes_of c h k))
