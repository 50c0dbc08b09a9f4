-- ===== src/NumberText/Digits.antt =====
-- The digits that IntToUCS2 of runtime/ejs-ops.c writes, read back by position, and what its buffer
-- has room for.
use mathlib.Core.Path.{subst}
use native.Mathlib.Nat.{
  div-lt_iff_lt-mul, le-div_iff_mul-le, div-add-mod', mod-lt, mod-eq-sub-div-mul, one-le-pow,
  pow-zero, pow-suc,
}
use echo_js.Base.{
  ℕ, zero, suc, All, ◌+◌, ◌-◌, ◌*◌, ◌/◌, ◌%◌, ◌^◌, ◌≤◌, ◌<◌, ◌≡◌, ◌≢◌, refl, sym, ap, ◌∙◌, ℤ, pos,
  negsuc, none, some, List, [], ◌∷◌, true, false, Bool-cases, ltb, ◌==◌, ==_iff, ==_false, inl, inr,
  if◌then◌else◌, arith,
}
use echo_js.NumberText.{
  magnitude, digit_char, write_digits, write_sign, written, int_to_ucs2, uint32_char_buffer_length,
}

-- what a character stands for
abbrev pub digit_value : ℕ → ℕ
digit_value c = if ltb c 58 then c - 48 else c - 87

-- the value of the digits behind the value `u`
abbrev pub read_digits : ℕ → ℕ → List ℕ → ℕ
read_digits base u [] = u
read_digits base u (c ∷ cs) = read_digits base (u * base + digit_value c) cs

abbrev negated : ℕ → ℤ
negated zero = pos zero
negated (suc n) = negsuc n

-- the number that a text stands for, which may start with a sign
abbrev pub read_int : ℕ → List ℕ → ℤ
read_int base [] = pos 0
read_int base (c ∷ cs) =
    if c == 45 then negated (read_digits base 0 cs) else pos (read_digits base 0 (c ∷ cs))

-- how many digits there is room for, the sign counted
abbrev pub places : ℤ → ℕ
places (pos n) = uint32_char_buffer_length
places (negsuc n) = uint32_char_buffer_length - 1

abbrev pub with_sign : ℤ → List ℕ → List ℕ
with_sign (pos n) cs = cs
with_sign (negsuc n) cs = 45 ∷ cs

sign_fits : (r : ℕ) (chars : List ℕ) → 1 ≤ r → write_sign (some (r, chars)) ≡ some (45 ∷ chars)
unfolding write_sign
sign_fits zero chars h = absurd (omega (arith, h))
sign_fits (suc r) chars h = refl

negated-suc : (n : ℕ) → negated (n + 1) ≡ negsuc n
negated-suc n = let e : n + 1 ≡ suc n = omega arith in ap negated e

module _ (base : ℕ) (two : 2 ≤ base) (most : base ≤ 36) where
  abbrev char_of : ℕ → ℕ
  char_of u = if base == 10 then 48 + u % 10 else digit_char (u - u / base * base)

  char_of-digit : (u : ℕ) → char_of u ≡ digit_char (u % base)
  unfolding digit_char
  char_of-digit u = rw (sym (mod-eq-sub-div-mul u base)) (elim (Bool-cases (base == 10)) [
    | inl e ↦
        let ten : base ≡ 10 = (==_iff base 10).0 e in
        rw (e, ap (λ b. u % b) ten) (ground (arith, mod-lt u {m = 10} (omega arith)))
    | inr e ↦ rw (e) refl
  ])

  digit_value_of_char : (d : ℕ) → d < base → digit_value (digit_char d) ≡ d
  unfolding digit_char
  digit_value_of_char d h = ground (arith, h, most)

  digit_char-ne_sign : (d : ℕ) → digit_char d ≢ 45
  unfolding digit_char
  digit_char-ne_sign d = ground arith

  char_of-value : (u : ℕ) → u / base * base + digit_value (char_of u) ≡ u
  char_of-value u =
      rw (char_of-digit u, digit_value_of_char (u % base) (mod-lt u (omega arith)))
        (div-add-mod' u base)

  last_digit :
      (room u : ℕ) (chars : List ℕ)
      → (u / base == 0) ≡ true
      → write_digits (suc room) base u chars ≡ some (room, char_of u ∷ chars)
  unfolding write_digits
  last_digit room u chars e = rw (write_digits, e) refl

  next_digit :
      (room u : ℕ) (chars : List ℕ)
      → (u / base == 0) ≡ false
      → write_digits (suc room) base u chars ≡ write_digits room base (u / base) (char_of u ∷ chars)
  unfolding write_digits
  next_digit room u chars e = rw (write_digits, e) refl

  positive : 0 < base
  positive = omega arith

  lower : (k u : ℕ) → u < base ^ suc k → u / base < base ^ k
  lower k u h = (div-lt_iff_lt-mul positive).1 (rw (sym (pow-suc base k)) h)

  -- the characters of the digits
  abbrev pub IsDigit : ℕ → Type 0
  IsDigit c = (d : ℕ) × (d < base) × (c ≡ digit_char d)

  char_of-IsDigit : (u : ℕ) → IsDigit (char_of u)
  char_of-IsDigit u = (u % base, mod-lt u (omega arith), char_of-digit u)

  IsDigit-ne_sign : (c : ℕ) → IsDigit c → c ≢ 45
  IsDigit-ne_sign c (d, small, e) = rw (e) (digit_char-ne_sign d)

  -- how many places are left, and the digits written
  abbrev AreWritten : ℕ → ℕ → ℕ → List ℕ → Type 0
  AreWritten k room u chars =
      (r c : ℕ) × (cs : List ℕ) × (write_digits (suc room) base u chars ≡ some (r, c ∷ cs))
      × (room ≤ r + k)
      × All IsDigit (c ∷ cs)
      × (read_digits base 0 (c ∷ cs) ≡ read_digits base u chars)

  one_digit :
      (k room u : ℕ) (chars : List ℕ)
      → All IsDigit chars
      → (u / base == 0) ≡ true
      → AreWritten k room u chars
  one_digit k room u chars all e =
      let none_left : u / base ≡ 0 = (==_iff (u / base) 0).0 e in
      let value : 0 * base + digit_value (char_of u) ≡ u =
        subst (λ q. q * base + digit_value (char_of u) ≡ u) none_left (char_of-value u) in
      (
        room,
        char_of u,
        chars,
        last_digit room u chars e,
        omega arith,
        (char_of-IsDigit u, all),
        ap (λ v. read_digits base v chars) value,
      )

  more_digits :
      (k room u : ℕ) (chars : List ℕ)
      → (u / base == 0) ≡ false
      → AreWritten k room (u / base) (char_of u ∷ chars)
      → AreWritten (suc k) (suc room) u chars
  more_digits k room u chars e (r, c, cs, run, left, plain, value) = (
    r,
    c,
    cs,
    next_digit (suc room) u chars e ∙ run,
    omega (arith, left),
    plain,
    value ∙ ap (λ v. read_digits base v chars) (char_of-value u),
  )

  -- With a place for each digit, they are written, and what they stand for is kept.
  write_digits_total :
      (k room u : ℕ) (chars : List ℕ)
      → All IsDigit chars
      → k ≤ room
      → u < base ^ suc k
      → AreWritten k room u chars
  write_digits_total zero room u chars all f h =
      one_digit 0 room u chars all (ground (arith, lower 0 u h, pow-zero base))
  write_digits_total (suc k) zero u chars all f h = absurd (omega (arith, f))
  write_digits_total (suc k) (suc room) u chars all f h =
      let below =
        write_digits_total k room (u / base) (char_of u ∷ chars) (char_of-IsDigit u, all)
          (omega (arith, f)) (lower (suc k) u h) in
      elim (Bool-cases (u / base == 0)) [
        | inl e ↦ one_digit (suc k) (suc room) u chars all e
        | inr e ↦ more_digits k room u chars e below
      ]

  power-positive : (k : ℕ) → 0 < base ^ k
  power-positive k = one-le-pow k base positive

  higher : (room u : ℕ) → base ^ suc room ≤ u → base ^ room ≤ u / base
  higher room u h = (le-div_iff_mul-le positive).1 (rw (sym (pow-suc base room)) h)

  digits_left : (room u : ℕ) → base ^ suc room ≤ u → (u / base == 0) ≡ false
  digits_left room u h = ground (arith, higher room u h, power-positive room)

  -- Without, they are not.
  write_digits_overruns :
      (room u : ℕ) (chars : List ℕ) → base ^ room ≤ u → write_digits room base u chars ≡ none
  unfolding write_digits
  write_digits_overruns zero u chars h = refl
  write_digits_overruns (suc room) u chars h =
      next_digit room u chars (digits_left room u h)
      ∙ write_digits_overruns room (u / base) (char_of u ∷ chars) (higher room u h)

  write_sign_overruns :
      (room u : ℕ) (chars : List ℕ)
      → base ^ room ≤ u
      → write_sign (write_digits (suc room) base u chars) ≡ none
  unfolding write_digits write_sign
  write_sign_overruns zero u chars h = elim (Bool-cases (u / base == 0)) [
    | inl e ↦ ap write_sign (last_digit 0 u chars e)
    | inr e ↦ ap write_sign (next_digit 0 u chars e)
  ]
  write_sign_overruns (suc room) u chars h =
      ap write_sign (next_digit (suc room) u chars (digits_left room u h))
      ∙ write_sign_overruns room (u / base) (char_of u ∷ chars) (higher room u h)

  pub int_to_ucs2-digits :
      (i : ℤ)
      → magnitude i < base ^ places i
      → (c : ℕ) × (cs : List ℕ) × (int_to_ucs2 i base ≡ some (with_sign i (c ∷ cs)))
        × All IsDigit (c ∷ cs)
        × (read_digits base 0 (c ∷ cs) ≡ magnitude i)
  unfolding int_to_ucs2 written
  int_to_ucs2-digits (pos n) h =
      let (r, c, cs, run, left, all, value) = write_digits_total 9 9 n [] tt (omega arith) h in
      (c, cs, ap written run, all, value)
  int_to_ucs2-digits (negsuc n) h =
      let (r, c, cs, run, left, all, value) =
        write_digits_total 8 9 (n + 1) [] tt (omega arith) h in
      (c, cs, ap write_sign run ∙ sign_fits r (c ∷ cs) (omega (arith, left)), all, value)

  -- In a base between 2 and 36, the text of an integer whose digits, with the sign, find room in the
  -- buffer is written, and read by position it is that integer.
  pub read_int-int_to_ucs2 :
      (i : ℤ)
      → magnitude i < base ^ places i
      → (cs : List ℕ) × (int_to_ucs2 i base ≡ some cs) × (read_int base cs ≡ i)
  read_int-int_to_ucs2 (pos n) h =
      let (c, cs, run, all, value) = int_to_ucs2-digits (pos n) h in
      (c ∷ cs, run, rw (==_false c 45 (IsDigit-ne_sign c all.0)) (ap pos value))
  read_int-int_to_ucs2 (negsuc n) h =
      let (c, cs, run, all, value) = int_to_ucs2-digits (negsuc n) h in
      (45 ∷ c ∷ cs, run, ap negated value ∙ negated-suc n)

  -- In a base between 2 and 36, the text of an integer whose digits, with the sign, find no room in
  -- the buffer is written over its start.
  pub int_to_ucs2_overruns : (i : ℤ) → base ^ places i ≤ magnitude i → int_to_ucs2 i base ≡ none
  unfolding int_to_ucs2 written
  int_to_ucs2_overruns (pos n) h = ap written (write_digits_overruns 10 n [] h)
  int_to_ucs2_overruns (negsuc n) h = write_sign_overruns 9 (n + 1) [] h
