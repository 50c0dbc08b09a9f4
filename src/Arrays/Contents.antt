-- ===== src/Arrays/Contents.antt =====
-- What the elements of an array of runtime/ejs-array.c are as a list.
use echo_js.Base.{
  ℕ, zero, suc, ◌+◌, ◌≤◌, ◌<◌, ◌≡◌, refl, ap, ◌∙◌, List, [], ◌∷◌, ◌++◌, length, take, drop, true,
  arith,
}
use echo_js.Objects.{argument}
use echo_js.Arrays.{EjsArray}

-- `n` words of the memory `f`, from the index `s`
abbrev pub read : (ℕ → ℕ) → ℕ → ℕ → List ℕ
read f s zero = []
read f s (suc n) = f s ∷ read f (suc s) n

abbrev pub contents : EjsArray → List ℕ
contents a = read a.elements 0 a.array_length

-- The elements lie in the buffer.
pub record IsArray (a : EjsArray) : Type 0 where
  pub is_dense : a.dense ≡ true
  pub within : a.array_length ≤ a.array_alloc

pub length-read : (f : ℕ → ℕ) (s n : ℕ) → length (read f s n) ≡ n
length-read f s zero = refl
length-read f s (suc n) = ap suc (length-read f (suc s) n)

-- Two pieces of memory that agree word for word are read as the same list.
pub read_ext :
    (f g : ℕ → ℕ) (s t n : ℕ) → ((i : ℕ) → i < n → f (s + i) ≡ g (t + i)) → read f s n ≡ read g t n
read_ext f g s t zero h = refl
read_ext f g s t (suc n) h =
    let first : f s ≡ g t = ap f (omega arith) ∙ h 0 (omega arith) ∙ ap g (omega arith) in
    let rest =
      read_ext f g (suc s) (suc t) n
        (λ i k. ap f (omega arith) ∙ h (suc i) (omega arith) ∙ ap g (omega arith)) in
    ap (λ (x : ℕ). x ∷ read f (suc s) n) first ∙ ap (◌∷◌ (g t)) rest

pub read-add : (f : ℕ → ℕ) (s m n : ℕ) → read f s (m + n) ≡ read f s m ++ read f (s + m) n
read-add f s zero n = ground arith
read-add f s (suc m) n =
    let e : suc m + n ≡ suc (m + n) = omega arith in
    let f' : suc s + m ≡ s + suc m = omega arith in
    ap (read f s) e
    ∙ ap (◌∷◌ (f s)) (read-add f (suc s) m n)
    ∙ ap (λ (k : ℕ). f s ∷ (read f (suc s) m ++ read f k n)) f'

pub read-argument :
    (f : ℕ → ℕ) (s : ℕ) (xs : List ℕ)
    → ((i : ℕ) → i < length xs → f (s + i) ≡ argument i xs)
    → read f s (length xs) ≡ xs
read-argument f s [] h = refl
read-argument f s (x ∷ xs) h =
    let first : f s ≡ x = ap f (omega arith) ∙ h 0 (omega arith) in
    let rest = read-argument f (suc s) xs (λ i k. ap f (omega arith) ∙ h (suc i) (omega arith)) in
    ap (λ (y : ℕ). y ∷ read f (suc s) (length xs)) first ∙ ap (◌∷◌ x) rest

pub take-drop-read :
    (f : ℕ → ℕ) (s b m n : ℕ) → b + m ≤ n → take m (drop b (read f s n)) ≡ read f (s + b) m
take-drop-read f s zero zero n h = refl
take-drop-read f s zero (suc m) zero h = absurd (omega arith)
take-drop-read f s zero (suc m) (suc n) h =
    let e : s ≡ s + 0 = omega arith in
    ap (◌∷◌ (f s))
      (take-drop-read f (suc s) 0 m n (omega arith) ∙ ap (λ (k : ℕ). read f k m) (omega arith))
    ∙ ap (λ (k : ℕ). read f k (suc m)) e
take-drop-read f s (suc b) m zero h = absurd (omega arith)
take-drop-read f s (suc b) m (suc n) h =
    take-drop-read f (suc s) b m n (omega arith) ∙ ap (λ (k : ℕ). read f k m) (omega arith)
