-- ===== src/Equality/Strings.antt =====
-- ucs2_strcmp against equality of the code units.
use echo_js.Base.{ℕ, ◌<◌, List, [], ◌∷◌, ◌≡◌, ◌↔◌, refl, true, arith, All, ◌++◌}
use echo_js.Equality.{ucs2_strcmp_zero}

-- No unit is zero.
abbrev pub IsNulFree : List ℕ → Type 0
IsNulFree = All (λ x. 0 < x)

-- Without an embedded zero, the comparison returns 0 on the same sequence of units only.
ucs2_strcmp_zero_iff :
    (xs ys : List ℕ) → IsNulFree xs → IsNulFree ys → (ucs2_strcmp_zero xs ys ≡ true) ↔ (xs ≡ ys)
unfolding ucs2_strcmp_zero
ucs2_strcmp_zero_iff [] [] hx hy = ground arith
ucs2_strcmp_zero_iff [] (y ∷ ys) hx hy = ground arith
ucs2_strcmp_zero_iff (x ∷ xs) [] hx hy = ground arith
ucs2_strcmp_zero_iff (x ∷ xs) (y ∷ ys) hx hy = ground (arith, ucs2_strcmp_zero_iff xs ys hx.1 hy.1)

pub ucs2_strcmp_zero_refl : (xs : List ℕ) → ucs2_strcmp_zero xs xs ≡ true
unfolding ucs2_strcmp_zero
ucs2_strcmp_zero_refl [] = refl
ucs2_strcmp_zero_refl (x ∷ xs) = ground (arith, ucs2_strcmp_zero_refl xs)

-- What follows a zero that both strings have is not compared, whatever it is.
pub ucs2_strcmp_zero_after_nul :
    (xs ys zs : List ℕ) → ucs2_strcmp_zero (xs ++ 0 ∷ ys) (xs ++ 0 ∷ zs) ≡ true
unfolding ucs2_strcmp_zero
ucs2_strcmp_zero_after_nul [] ys zs = refl
ucs2_strcmp_zero_after_nul (x ∷ xs) ys zs = ground (arith, ucs2_strcmp_zero_after_nul xs ys zs)
