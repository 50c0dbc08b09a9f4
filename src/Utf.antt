-- ===== src/Utf.antt =====
-- The conversions of runtime/ejs-string.c between UTF-8 and UTF-16: one character at a time, and
-- utf8_to_ucs2 of one sequence. A byte is a number below 2 ^ 8 and a jschar one below 2 ^ 16.
pub mod Roundtrip
pub mod Surrogates
use echo_js.Base.{
  ℕ, ◌+◌, ◌-◌, ◌*◌, ◌/◌, ◌%◌, ◌^◌, bit_and, bit_or, List, [], ◌∷◌, Bool, ◌&&◌, Outcome, ok, aborted,
  ltb, leb, ◌==◌, if◌then◌else◌,
}

-- the bytes that are written, and `*utf16_adv`
abbrev pub Encoded : Type 0
Encoded = List ℕ × ℕ

-- the four bytes of a surrogate pair; the differences are C `int`s, and `combined` a uint32_t
unfoldable pub surrogate_bytes : ℕ → ℕ → List ℕ
surrogate_bytes ucs2 ucs2_2 =
    let combined =
      (0x10000 + bit_or ((ucs2 - 0xD800) * 2 ^ 10) ((ucs2_2 + 2 ^ 32 - 0xDC00) % 2 ^ 32))
      % 2 ^ 32 in
    bit_or 0xF0 (combined / 2 ^ 18) % 2 ^ 8
    ∷ bit_or 0x80 (combined / 2 ^ 12 % 2 ^ 6)
    ∷ bit_or 0x80 (combined / 2 ^ 6 % 2 ^ 6)
    ∷ bit_or 0x80 (combined % 2 ^ 6)
    ∷ []

-- utf16_to_utf8_char, on the unit at `utf16` and the one behind it
unfoldable pub utf16_to_utf8_char : ℕ → ℕ → Outcome Encoded
unfolding surrogate_bytes
utf16_to_utf8_char ucs2 ucs2_2 =
    if ltb ucs2 0x80
    then ok (ucs2 ∷ [], 1)
    else if leb 0x80 ucs2 && ltb ucs2 0x800
    then ok (bit_or (ucs2 / 2 ^ 6) 0xC0 ∷ bit_or (ucs2 % 2 ^ 6) 0x80 ∷ [], 1)
    else if leb 0x800 ucs2 && leb ucs2 0xFFFF
    then (if leb 0xD800 ucs2 && leb ucs2 0xDFFF
        then ok (surrogate_bytes ucs2 ucs2_2, 2)
        else ok (
          bit_or (ucs2 / 2 ^ 12) 0xE0
              ∷ bit_or (ucs2 / 2 ^ 6 % 2 ^ 6) 0x80
              ∷ bit_or (ucs2 % 2 ^ 6) 0x80
              ∷ [],
          1,
        ))
    else aborted

-- ucs2_to_utf8_char
unfoldable pub ucs2_to_utf8_char : ℕ → Outcome (List ℕ)
ucs2_to_utf8_char ucs2 =
    if ltb ucs2 0x80
    then ok (ucs2 ∷ [])
    else if leb 0x80 ucs2 && ltb ucs2 0x800
    then ok (bit_or (ucs2 / 2 ^ 6) 0xC0 ∷ bit_or (ucs2 % 2 ^ 6) 0x80 ∷ [])
    else if leb 0x800 ucs2 && ltb ucs2 0xFFFF
    then (if leb 0xD800 ucs2 && leb ucs2 0xDFFF
        then aborted
        else ok (
            bit_or (ucs2 / 2 ^ 12) 0xE0
            ∷ bit_or (ucs2 / 2 ^ 6 % 2 ^ 6) 0x80
            ∷ bit_or (ucs2 % 2 ^ 6) 0x80
            ∷ []))
    else aborted

-- `input[i]`, with the terminating zero
unfoldable pub byte : List ℕ → ℕ → ℕ
byte [] i = 0
byte (b ∷ bs) ℕ.zero = b
byte (b ∷ bs) (ℕ.suc i) = byte bs i

-- utf8_to_ucs2: the jschar, and how far `*end_ptr` is behind `input`; -1 is 0xFFFF
unfoldable pub utf8_to_ucs2 : List ℕ → ℕ × ℕ
unfolding byte
utf8_to_ucs2 input =
    if byte input 0 == 0
    then (0xFFFF, 0)
    else if ltb (byte input 0) 0x80
    then (byte input 0, 1)
    else if bit_and (byte input 0) 0xE0 == 0xE0
    then (if byte input 1 == 0 then (0xFFFF, 0) else if byte input 2 == 0 then (0xFFFF, 0) else (
      bit_or (bit_or (byte input 0 % 2 ^ 4 * 2 ^ 12) (byte input 1 % 2 ^ 6 * 2 ^ 6))
          (byte input 2 % 2 ^ 6),
      3,
    ))
    else if bit_and (byte input 0) 0xC0 == 0xC0
    then (if byte input 1 == 0
        then (0xFFFF, 0)
        else (bit_or (byte input 0 % 2 ^ 5 * 2 ^ 6) (byte input 1 % 2 ^ 6), 2))
    else (0xFFFF, 0)

-- codepoint_to_codeunits
unfoldable pub codepoint_to_codeunits : ℕ → Outcome (List ℕ)
codepoint_to_codeunits codepoint =
    if ltb 0x10FFFF codepoint
    then aborted
    else if leb codepoint 65535
    then ok (codepoint ∷ [])
    else ok (((codepoint - 0x10000) / 1024 + 0xD800) ∷ ((codepoint - 0x10000) % 1024 + 0xDC00) ∷ [])
