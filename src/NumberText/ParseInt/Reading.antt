-- ===== src/NumberText/ParseInt/Reading.antt =====
-- parseInt of runtime/ejs-ops.c on the text that IntToUCS2 writes.
use mathlib.Core.Path.{subst}
use native.Mathlib.Nat.{mod-eq_of_lt, le-mul_of_pos_right}
use echo_js.Base.{
  ℕ, suc, ◌+◌, ◌*◌, ◌%◌, ◌^◌, ◌≤◌, ◌<◌, ◌≡◌, ◌≢◌, ◌⊎◌, refl, sym, ap, ◌∙◌, ℤ, pos, negsuc, All,
  All-map, length, some, List, [], ◌∷◌, Bool, true, false, ◌||◌, ◌==◌, ==_false, inl, inr, arith,
}
use echo_js.NumberText.{magnitude, digit_char, int_to_ucs2}
use echo_js.NumberText.Digits.{digit_value, read_digits, IsDigit, places, int_to_ucs2-digits}
use echo_js.NumberText.ParseInt.{
  number, radix_digit, count_digits, math_int, signed_number, read_number, strip_prefix,
  read_in_radix, parse_int,
}

abbrev pub IsReadRadix : ℕ → Type 0
IsReadRadix R = (R ≡ 8) ⊎ (R ≡ 10) ⊎ (R ≡ 16)

module _ (R : ℕ) (known : IsReadRadix R) where
  bounds : (2 ≤ R) × (R ≤ 36)
  bounds = elim known [
    | inl e ↦ omega (arith, e)
    | inr (inl e) ↦ omega (arith, e)
    | inr (inr e) ↦ omega (arith, e)
  ]

  -- what is known of a character that is a digit
  abbrev IsRead : ℕ → Type 0
  IsRead c = (radix_digit R c ≡ some (digit_value c)) × (c ≢ 45) × (c ≢ 43) × (c ≢ 88) × (c ≢ 120)

  IsDigit-IsRead : (c : ℕ) → IsDigit R bounds.0 bounds.1 c → IsRead c
  unfolding radix_digit digit_char
  IsDigit-IsRead c (d, small, e) = elim known [
    | inl k ↦ ground (arith, k, small, e)
    | inr (inl k) ↦ ground (arith, k, small, e)
    | inr (inr k) ↦ ground (arith, k, small, e)
  ]

  read_digits-le : (u : ℕ) (cs : List ℕ) → u ≤ read_digits R u cs
  read_digits-le u [] = omega arith
  read_digits-le u (c ∷ cs) =
      let positive : 0 < R = omega (arith, bounds.0) in
      omega (arith, read_digits-le (u * R + digit_value c) cs, le-mul_of_pos_right u positive)

  count_digits-length : (cs : List ℕ) → All IsRead cs → count_digits R cs ≡ length cs
  unfolding count_digits
  count_digits-length [] all = refl
  count_digits-length (c ∷ cs) all =
      rw (count_digits, all.0.0) (ap suc (count_digits-length cs all.1))

  math_int-read_digits :
      (cs : List ℕ) (u : ℕ)
      → All IsRead cs
      → read_digits R u cs < 2 ^ 32
      → math_int R (length cs) cs u ≡ read_digits R u cs
  unfolding math_int
  math_int-read_digits [] u all h = refl
  math_int-read_digits (c ∷ cs) u all h =
      let v = u * R + digit_value c in
      let small : v % 2 ^ 32 ≡ v = mod-eq_of_lt (omega (arith, h, read_digits-le v cs)) in
      rw (math_int, all.0.0, small) (math_int-read_digits cs v all.1 h)

  known_lem : (R == 8 || R == 10 || R == 16) ≡ true
  known_lem = elim known [
    | inl k ↦ rw (k) refl
    | inr (inl k) ↦ rw (k) refl
    | inr (inr k) ↦ rw (k) refl
  ]

  read_number-digits :
      (is_negative : Bool) (c : ℕ) (cs : List ℕ)
      → All IsRead (c ∷ cs)
      → read_digits R 0 (c ∷ cs) < 2 ^ 32
      → read_number is_negative R (c ∷ cs)
        ≡ number (signed_number is_negative (read_digits R 0 (c ∷ cs)))
  unfolding read_number
  read_number-digits is_negative c cs all h =
      rw (known_lem, count_digits-length (c ∷ cs) all)
        (ap (λ w. number (signed_number is_negative w)) (math_int-read_digits (c ∷ cs) 0 all h))

  strip_prefix-digits :
      (c : ℕ) (cs : List ℕ) → All IsRead (c ∷ cs) → strip_prefix R (c ∷ cs) ≡ (R, c ∷ cs)
  unfolding strip_prefix
  strip_prefix-digits c [] all = refl
  strip_prefix-digits c (x ∷ []) all = refl
  strip_prefix-digits c (x ∷ y ∷ cs) all =
      rw (==_false x 120 (all.1.0.4), ==_false x 88 (all.1.0.3)) (ground arith)

  read_in_radix-digits :
      (is_negative : Bool) (c : ℕ) (cs : List ℕ)
      → All IsRead (c ∷ cs)
      → read_in_radix is_negative (c ∷ cs) (some (pos R)) ≡ read_number is_negative R (c ∷ cs)
  unfolding read_in_radix
  read_in_radix-digits is_negative c cs all =
      let Agrees = λ (r : ℕ).
        read_in_radix is_negative (c ∷ cs) (some (pos r)) ≡ read_number is_negative r (c ∷ cs) in
      elim known [
        | inl k ↦ subst Agrees (sym k) refl
        | inr (inl k) ↦ subst Agrees (sym k) refl
        | inr (inr k) ↦
            let kept =
              subst (λ r. strip_prefix r (c ∷ cs) ≡ (r, c ∷ cs)) k (strip_prefix-digits c cs all) in
            subst Agrees (sym k) (ap (λ p. read_number is_negative p.0 p.1) kept)
      ]

  signed_number-magnitude : (n : ℕ) → n < 2 ^ 31 → signed_number false n ≡ pos n
  unfolding signed_number
  signed_number-magnitude n h = ground (arith, h)

  signed_number-negated : (n : ℕ) → n + 1 < 2 ^ 31 → signed_number true (n + 1) ≡ negsuc n
  unfolding signed_number
  signed_number-negated n h = ground (arith, h)

  read_in_radix-value :
      (is_negative : Bool) (c : ℕ) (cs : List ℕ) (n : ℕ)
      → All IsRead (c ∷ cs)
      → read_digits R 0 (c ∷ cs) ≡ n
      → n < 2 ^ 31
      → read_in_radix is_negative (c ∷ cs) (some (pos R)) ≡ number (signed_number is_negative n)
  read_in_radix-value is_negative c cs n all value small =
      read_in_radix-digits is_negative c cs all
      ∙ read_number-digits is_negative c cs all (omega (arith, value, small))
      ∙ ap (λ w. number (signed_number is_negative w)) value

  -- In base 8, 10 or 16, parseInt reads back the integer that IntToUCS2 wrote, if the text finds
  -- room in the buffer and the magnitude of the integer is below 2 ^ 31.
  pub parse_int-int_to_ucs2 :
      (i : ℤ)
      → magnitude i < R ^ places i
      → magnitude i < 2 ^ 31
      → (cs : List ℕ) × (int_to_ucs2 i R ≡ some cs) × (parse_int cs (some (pos R)) ≡ number i)
  unfolding parse_int
  parse_int-int_to_ucs2 (pos n) h small =
      let (c, cs, run, digits, value) = int_to_ucs2-digits R bounds.0 bounds.1 (pos n) h in
      let all = All-map (IsDigit R bounds.0 bounds.1) IsRead (c ∷ cs) IsDigit-IsRead digits in
      let read =
        read_in_radix-value false c cs n all value small
        ∙ ap number (signed_number-magnitude n small) in
      (c ∷ cs, run, rw (==_false c 45 all.0.1, ==_false c 43 all.0.2) read)
  parse_int-int_to_ucs2 (negsuc n) h small =
      let (c, cs, run, digits, value) = int_to_ucs2-digits R bounds.0 bounds.1 (negsuc n) h in
      let read =
        read_in_radix-value true c cs (n + 1)
          (All-map (IsDigit R bounds.0 bounds.1) IsRead (c ∷ cs) IsDigit-IsRead digits) value
          small in
      (45 ∷ c ∷ cs, run, read ∙ ap number (signed_number-negated n small))
