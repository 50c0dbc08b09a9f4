-- ===== src/Utf/Roundtrip.antt =====
-- What runtime/ejs-string.c writes in UTF-8 is the encoding of the character, and is read back.
use echo_js.Base.{
  ℕ, ◌+◌, ◌*◌, ◌/◌, ◌%◌, ◌^◌, ◌≤◌, ◌<◌, bit_and, bit_or, ◌≡◌, ap, ◌∙◌, ◌⊎◌, inl, inr, List, [], ◌∷◌,
  ◌++◌, length, ok, ltb, Bool-cases, or_of_fields, or_of_fields_flipped, and_lowest, arith,
}
use echo_js.Utf.{utf16_to_utf8_char, byte, utf8_to_ucs2}

halves5 : (a : ℕ) → a / 2 / 2 / 2 / 2 / 2 ≡ a / 2 ^ 5
halves5 a = omega arith

halves6 : (a : ℕ) → a / 2 / 2 / 2 / 2 / 2 / 2 ≡ a / 2 ^ 6
halves6 a = omega arith

-- `&` with a mask whose low bits are clear.
and_high :
    (a : ℕ)
    → (bit_and a 0xE0 ≡ bit_and (a / 2 ^ 5) 7 * 2 ^ 5)
      × (bit_and a 0xC0 ≡ bit_and (a / 2 ^ 6) 3 * 2 ^ 6)
and_high a = (
  omega (
    arith,
    and_lowest a 0xE0,
    and_lowest (a / 2) 0x70,
    and_lowest (a / 2 / 2) 0x38,
    and_lowest (a / 2 / 2 / 2) 0x1C,
    and_lowest (a / 2 / 2 / 2 / 2) 0xE,
    ap (λ (b : ℕ). bit_and b 7) (halves5 a),
  ),
  omega (
    arith,
    and_lowest a 0xC0,
    and_lowest (a / 2) 0x60,
    and_lowest (a / 2 / 2) 0x30,
    and_lowest (a / 2 / 2 / 2) 0x18,
    and_lowest (a / 2 / 2 / 2 / 2) 0xC,
    and_lowest (a / 2 / 2 / 2 / 2 / 2) 0x6,
    ap (λ (b : ℕ). bit_and b 3) (halves6 a),
  ),
)

module _ (u : ℕ) where
  abbrev two_bytes : List ℕ
  two_bytes = (0xC0 + u / 2 ^ 6) ∷ (0x80 + u % 2 ^ 6) ∷ []

  abbrev three_bytes : List ℕ
  three_bytes = (0xE0 + u / 2 ^ 12) ∷ (0x80 + u / 2 ^ 6 % 2 ^ 6) ∷ (0x80 + u % 2 ^ 6) ∷ []

  low : (x : ℕ) → x < 2 ^ 6 → bit_or x 0x80 ≡ 0x80 + x
  low x h = or_of_fields_flipped 6 2 x h

  lead_two : u < 0x800 → bit_or (u / 2 ^ 6) 0xC0 ≡ 0xC0 + u / 2 ^ 6
  lead_two h = or_of_fields_flipped 5 6 (u / 2 ^ 6) (omega arith)

  lead_three : u < 2 ^ 16 → bit_or (u / 2 ^ 12) 0xE0 ≡ 0xE0 + u / 2 ^ 12
  lead_three h = or_of_fields_flipped 4 14 (u / 2 ^ 12) (omega arith)

-- The tests of the first byte.
fifth : (b q : ℕ) → b / 2 ^ 5 ≡ q → bit_and b 0xE0 ≡ bit_and q 7 * 2 ^ 5
fifth b q e = (and_high b).0 ∙ ap (λ (x : ℕ). bit_and x 7 * 2 ^ 5) e

sixth : (b q : ℕ) → b / 2 ^ 6 ≡ q → bit_and b 0xC0 ≡ bit_and q 3 * 2 ^ 6
sixth b q e = (and_high b).1 ∙ ap (λ (x : ℕ). bit_and x 3 * 2 ^ 6) e

is_three : (b : ℕ) → 0xE0 ≤ b → b < 0xF0 → bit_and b 0xE0 ≡ 0xE0
is_three b h k = fifth b 7 (omega arith)

is_not_three : (b : ℕ) → 0xC0 ≤ b → b < 0xE0 → bit_and b 0xE0 ≡ 0xC0
is_not_three b h k = fifth b 6 (omega arith)

is_two : (b : ℕ) → 0xC0 ≤ b → b < 0xE0 → bit_and b 0xC0 ≡ 0xC0
is_two b h k = sixth b 3 (omega arith)

-- The fields of the bytes make the character.
pub or_to : (a b q r k : ℕ) → a ≡ q * 2 ^ k → b ≡ r → r < 2 ^ k → bit_or a b ≡ q * 2 ^ k + r
or_to a b q r k e f h =
    ap (λ (x : ℕ). bit_or x b) e ∙ ap (bit_or (q * 2 ^ k)) f ∙ or_of_fields k q r h

split6 : (u : ℕ) → u / 2 ^ 6 * 2 ^ 6 + u % 2 ^ 6 ≡ u
split6 u = omega arith

split12 : (u : ℕ) → u / 2 ^ 12 * 2 ^ 12 + u / 2 ^ 6 % 2 ^ 6 * 2 ^ 6 ≡ u / 2 ^ 6 * 2 ^ 6
split12 u = omega arith

join_two :
    (u : ℕ)
    → u < 0x800
    → bit_or ((0xC0 + u / 2 ^ 6) % 2 ^ 5 * 2 ^ 6) ((0x80 + u % 2 ^ 6) % 2 ^ 6) ≡ u
join_two u h =
    or_to ((0xC0 + u / 2 ^ 6) % 2 ^ 5 * 2 ^ 6) ((0x80 + u % 2 ^ 6) % 2 ^ 6) (u / 2 ^ 6) (u % 2 ^ 6)
      6 (omega arith) (omega arith) (omega arith)
    ∙ split6 u

join_three :
    (u : ℕ)
    → u < 2 ^ 16
    → bit_or
        (bit_or ((0xE0 + u / 2 ^ 12) % 2 ^ 4 * 2 ^ 12) ((0x80 + u / 2 ^ 6 % 2 ^ 6) % 2 ^ 6 * 2 ^ 6))
        ((0x80 + u % 2 ^ 6) % 2 ^ 6)
      ≡ u
join_three u h =
    let high =
      or_to ((0xE0 + u / 2 ^ 12) % 2 ^ 4 * 2 ^ 12) ((0x80 + u / 2 ^ 6 % 2 ^ 6) % 2 ^ 6 * 2 ^ 6)
        (u / 2 ^ 12) (u / 2 ^ 6 % 2 ^ 6 * 2 ^ 6) 12 (omega arith) (omega arith) (omega arith) in
    or_to _ ((0x80 + u % 2 ^ 6) % 2 ^ 6) (u / 2 ^ 6) (u % 2 ^ 6) 6 (high ∙ split12 u) (omega arith)
      (omega arith)
    ∙ split6 u

-- The character comes back from its bytes.
abbrev Returns : ℕ → ℕ → List ℕ → Type 0
Returns u v rest =
    (bytes : List ℕ) × (utf16_to_utf8_char u v ≡ ok (bytes, 1))
    × (utf8_to_ucs2 (bytes ++ rest) ≡ (u, length bytes))

module _ (u v : ℕ) (rest : List ℕ) where
  one_Returns : 0 < u → u < 0x80 → Returns u v rest
  unfolding utf16_to_utf8_char utf8_to_ucs2 byte
  one_Returns h k = (u ∷ [], ground arith, ground arith)

  two_Returns : 0x80 ≤ u → u < 0x800 → Returns u v rest
  unfolding utf16_to_utf8_char utf8_to_ucs2 byte
  two_Returns h k = (
    two_bytes u,
    ground (arith, lead_two u k, low u (u % 2 ^ 6) (omega arith)),
    ground (
      arith,
      is_not_three (0xC0 + u / 2 ^ 6) (omega arith) (omega arith),
      is_two (0xC0 + u / 2 ^ 6) (omega arith) (omega arith),
      join_two u k,
    ),
  )

  three_Returns : 0x800 ≤ u → u < 2 ^ 16 → (u < 0xD800) ⊎ (0xDFFF < u) → Returns u v rest
  unfolding utf16_to_utf8_char utf8_to_ucs2 byte
  three_Returns h k n = (
    three_bytes u,
    ground (
      arith,
      lead_three u k,
      low u (u / 2 ^ 6 % 2 ^ 6) (omega arith),
      low u (u % 2 ^ 6) (omega arith),
      n,
    ),
    ground (arith, is_three (0xE0 + u / 2 ^ 12) (omega arith) (omega arith), join_three u k),
  )

-- A jschar other than zero and the surrogates is written by utf16_to_utf8_char, which uses one
-- unit of its input, and utf8_to_ucs2 reads it from the bytes, whatever bytes are behind them, and
-- ends where they end.
pub utf8_to_ucs2-utf16_to_utf8_char :
    (u v : ℕ) (rest : List ℕ)
    → 0 < u
    → u < 2 ^ 16
    → (u < 0xD800) ⊎ (0xDFFF < u)
    → (bytes : List ℕ) × (utf16_to_utf8_char u v ≡ ok (bytes, 1))
      × (utf8_to_ucs2 (bytes ++ rest) ≡ (u, length bytes))
utf8_to_ucs2-utf16_to_utf8_char u v rest h k n = elim (Bool-cases (ltb u 0x80)) [
  | inl one ↦ one_Returns u v rest h (ground (arith, one))
  | inr more ↦ elim (Bool-cases (ltb u 0x800)) [
    | inl two ↦ two_Returns u v rest (ground (arith, more)) (ground (arith, two))
    | inr three ↦ three_Returns u v rest (ground (arith, three)) k n
  ]
]
