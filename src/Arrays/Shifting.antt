-- ===== src/Arrays/Shifting.antt =====
-- shift after unshift on a dense array of runtime/ejs-array.c.
use echo_js.Base.{
  ℕ, ◌+◌, ◌^◌, ◌<◌, ◌≡◌, ap, sym, ◌∙◌, inl, inr, List, ◌∷◌, ◌++◌, length, length-append, ok, arith,
}
use echo_js.Arrays.{EjsArray, array_shift_dense, array_unshift_dense}
use echo_js.Arrays.Contents.{contents, IsArray, length-read}
use echo_js.Arrays.Ends.{array_unshift_dense-contents}
use echo_js.Arrays.Taking.{array_shift_dense-contents}

parts : (x y : ℕ) (xs ys : List ℕ) → x ∷ xs ≡ y ∷ ys → (x ≡ y) × (xs ≡ ys)
parts x y xs ys e = (ground (arith, e), ground (arith, e))

-- An array of fewer than 2 ^ 31 elements that starts with `x` gives `x` away.
shift_first :
    (a : EjsArray) (x : ℕ) (xs : List ℕ)
    → IsArray a
    → a.array_length < 2 ^ 31
    → contents a ≡ x ∷ xs
    → (b : EjsArray) × (array_shift_dense a ≡ ok (b, x)) × IsArray b × (contents b ≡ xs)
shift_first a x xs v fits e =
    let (b, r, run, w, left) = array_shift_dense-contents a v fits in
    elim left [
      | inl f ↦
          let same = parts r x (contents b) xs (sym f ∙ e) in
          (b, run ∙ ap (λ (y : ℕ). ok (b, y)) same.0, w, same.1)
      | inr f ↦ absurd (ground (arith, e, f.0))
    ]

-- On a dense array whose elements lie in its buffer, while the length and the number of the
-- arguments, of which there is one at least, together stay below 2 ^ 31 - 32: what unshift puts in
-- front, shift takes away again. unshift returns the new length; shift then
-- returns the first argument, and leaves the other arguments and the elements of before, in order.
pub array_shift_dense-array_unshift_dense :
    (junk : ℕ → ℕ) (a : EjsArray) (x : ℕ) (args : List ℕ)
    → IsArray a
    → a.array_length + length (x ∷ args) + 32 < 2 ^ 31
    → (b c : EjsArray) × (array_unshift_dense junk a (x ∷ args)
        ≡ ok (b, a.array_length + length (x ∷ args)))
      × (array_shift_dense b ≡ ok (c, x))
      × IsArray c
      × (contents c ≡ args ++ contents a)
array_shift_dense-array_unshift_dense junk a x args v fits =
    let (b, run, w, e) = array_unshift_dense-contents junk a (x ∷ args) v fits in
    let same_length : length (contents b) ≡ a.array_length + length (x ∷ args) =
      ap length e
      ∙ length-append (x ∷ args) (contents a)
      ∙ omega (arith, length-read a.elements 0 a.array_length) in
    let (c, run', w', f) =
      shift_first b x (args ++ contents a) w
        (omega (arith, fits, same_length, length-read b.elements 0 b.array_length)) e in
    (b, c, run ∙ ap (λ (n : ℕ). ok (b, n)) same_length, run', w', f)
