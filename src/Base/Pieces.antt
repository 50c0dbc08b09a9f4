-- ===== src/Base/Pieces.antt =====
-- The pieces of a list that `take` and `drop` cut out.
use Prim.Native.Nat.{ℕ, zero, suc, ◌+◌, ◌-◌, ◌<◌, ◌≤◌}
use mathlib.Core.Path.{◌≡◌, refl, ap, sym, ◌∙◌}
use mathlib.Core.List.{List, [], ◌∷◌, ◌++◌}
use native.Mathlib.Omega.{arith}
use echo_js.Base.Lists.{length, get_elem?, drop}

plus : (i n : ℕ) → i + suc n ≡ suc (i + n)
plus i n = omega arith

module _ {ℓ} {A : Type ℓ} where
  abbrev pub take : ℕ → List A → List A
  take zero xs = []
  take (suc n) [] = []
  take (suc n) (x ∷ xs) = x ∷ take n xs

  pub length-take : (n : ℕ) (xs : List A) → n ≤ length xs → length (take n xs) ≡ n
  length-take zero xs h = refl
  length-take (suc n) [] h = absurd (omega arith)
  length-take (suc n) (x ∷ xs) h = ap suc (length-take n xs (omega arith))

  pub take_all : (xs : List A) (n : ℕ) → length xs ≤ n → take n xs ≡ xs
  take_all [] zero h = refl
  take_all [] (suc n) h = refl
  take_all (x ∷ xs) zero h = absurd (omega arith)
  take_all (x ∷ xs) (suc n) h = ap (x ∷◌) (take_all xs n (omega arith))

  drop_nil : (n : ℕ) → drop {A = A} n [] ≡ []
  drop_nil zero = refl
  drop_nil (suc n) = refl

  pub drop-drop : (m n : ℕ) (xs : List A) → drop m (drop n xs) ≡ drop (m + n) xs
  drop-drop m zero xs = ap (λ (k : ℕ). drop k xs) (omega arith)
  drop-drop m (suc n) [] = drop_nil m ∙ sym (drop_nil (m + suc n))
  drop-drop m (suc n) (x ∷ xs) = drop-drop m n xs ∙ ap (λ (k : ℕ). drop k (x ∷ xs)) (sym (plus m n))

  later : (i n : ℕ) (x : A) (xs : List A) → get_elem? xs (i + n) ≡ get_elem? (x ∷ xs) (i + suc n)
  later i n x xs = sym (ap (get_elem? (x ∷ xs)) (plus i n))

  pub get_elem?-drop : (i n : ℕ) (xs : List A) → get_elem? (drop n xs) i ≡ get_elem? xs (i + n)
  get_elem?-drop i zero xs = ap (get_elem? xs) (omega arith)
  get_elem?-drop i (suc n) [] = refl
  get_elem?-drop i (suc n) (x ∷ xs) = get_elem?-drop i n xs ∙ later i n x xs

  pub get_elem?-take : (i n : ℕ) (xs : List A) → i < n → get_elem? (take n xs) i ≡ get_elem? xs i
  get_elem?-take i zero xs h = absurd (omega arith)
  get_elem?-take i (suc n) [] h = refl
  get_elem?-take zero (suc n) (x ∷ xs) h = refl
  get_elem?-take (suc i) (suc n) (x ∷ xs) h = get_elem?-take i n xs (omega arith)

  -- The two arguments of a piece.
  piece :
      (n n' m m' : ℕ) (xs : List A) → n ≡ n' → m ≡ m' → take n (drop m xs) ≡ take n' (drop m' xs)
  piece n n' m m' xs e f =
      ap (λ (k : ℕ). take k (drop m xs)) e ∙ ap (λ (k : ℕ). take n' (drop k xs)) f

  take_to : (n m : ℕ) (xs : List A) → n ≡ m → take n xs ≡ take m xs
  take_to n m xs e = ap (λ (k : ℕ). take k xs) e

  take_nil : (n : ℕ) → take n [] ≡ []
  take_nil zero = refl
  take_nil (suc n) = refl

  take-append :
      (len : ℕ) (xs ys : List A) → take len (xs ++ ys) ≡ take len xs ++ take (len - length xs) ys
  take-append zero [] ys = refl
  take-append zero (x ∷ xs) ys = take_to 0 (0 - suc (length xs)) ys (omega arith)
  take-append (suc n) [] ys = take_to (suc n) (suc n - 0) ys (omega arith)
  take-append (suc n) (x ∷ xs) ys = ap (x ∷◌) (
      take-append n xs ys
      ∙ ap (take n xs ++◌) (take_to (n - length xs) (suc n - suc (length xs)) ys (omega arith)))

  -- The piece of two lists is the piece of the first and what it leaves for the second.
  pub take-drop-append :
      (off len : ℕ) (xs ys : List A)
      → take len (drop off (xs ++ ys))
        ≡ take len (drop off xs) ++ take (len - (length xs - off)) (drop (off - length xs) ys)
  take-drop-append zero len xs ys =
      take-append len xs ys
      ∙ ap (take len xs ++◌) (
          piece (len - length xs) (len - (length xs - 0)) 0 (0 - length xs) ys (omega arith)
            (omega arith))
  take-drop-append (suc off) len [] ys =
      piece len (len - (0 - suc off)) (suc off) (suc off - 0) ys (omega arith) (omega arith)
      ∙ ap (◌++ take (len - (0 - suc off)) (drop (suc off - 0) ys)) (sym (take_nil len))
  take-drop-append (suc off) len (x ∷ xs) ys =
      take-drop-append off len xs ys
      ∙ ap (take len (drop off xs) ++◌) (
          piece (len - (length xs - off)) (len - (suc (length xs) - suc off)) (off - length xs)
            (suc off - suc (length xs)) ys (omega arith) (omega arith))

  -- A piece of a piece that lies within it.
  pub take-drop-take :
      (off len l : ℕ) (xs : List A)
      → off + len ≤ l
      → take len (drop off (take l xs)) ≡ take len (drop off xs)
  take-drop-take off zero l xs h = refl
  take-drop-take off (suc len) zero xs h = absurd (omega arith)
  take-drop-take off (suc len) (suc l) [] h = refl
  take-drop-take zero (suc len) (suc l) (x ∷ xs) h =
      ap (x ∷◌) (take-drop-take zero len l xs (omega arith))
  take-drop-take (suc off) (suc len) (suc l) (x ∷ xs) h =
      take-drop-take off (suc len) l xs (omega arith)

  pub get_elem?-append_left :
      (xs ys : List A) (i : ℕ) → i < length xs → get_elem? (xs ++ ys) i ≡ get_elem? xs i
  get_elem?-append_left [] ys i h = absurd (omega arith)
  get_elem?-append_left (x ∷ xs) ys zero h = refl
  get_elem?-append_left (x ∷ xs) ys (suc i) h = get_elem?-append_left xs ys i (omega arith)

  pub length-drop : (n : ℕ) (xs : List A) → length (drop n xs) ≡ length xs - n
  length-drop zero xs = omega arith
  length-drop (suc n) [] = omega arith
  length-drop (suc n) (x ∷ xs) = omega (arith, length-drop n xs)
