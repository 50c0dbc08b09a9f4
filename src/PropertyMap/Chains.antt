-- ===== src/PropertyMap/Chains.antt =====
-- The chains of a property map, lists of addresses: how often an address is on them, and what the
-- searches and the removal do.
use echo_js.Base.{
  ℕ, ◌+◌, ◌<◌, ◌≡◌, List, [], ◌∷◌, ◌++◌, Bool, true, false, none, some, ◌==◌, if◌then◌else◌, length,
  refl, arith,
}
use echo_js.PropertyMap.{find, unlink}

-- How often the address `i` is on a chain.
unfoldable pub count : ℕ → List ℕ → ℕ
count i [] = 0
count i (x ∷ xs) = let rest = count i xs in if x == i then rest + 1 else rest

pub count-nil : (i : ℕ) → count i [] ≡ 0
unfolding count
count-nil i = refl

pub count_self : (s : ℕ) → count s (s ∷ []) ≡ 1
unfolding count
count_self s = ground arith

pub count-other : (i s : ℕ) → (s == i) ≡ false → count i (s ∷ []) ≡ 0
unfolding count
count-other i s h = ground arith

pub count-cons : (i s : ℕ) (xs : List ℕ) → count i (s ∷ xs) ≡ count i xs + count i (s ∷ [])
unfolding count
count-cons i s xs = ground arith

pub count-append :
    (i : ℕ) (xs : List ℕ) (s : ℕ) → count i (xs ++ s ∷ []) ≡ count i xs + count i (s ∷ [])
unfolding count
count-append i [] s = ground arith
count-append i (x ∷ xs) s = ground (arith, count-append i xs s)

pub count-unlink :
    (i s : ℕ) (xs : List ℕ) → 0 < count s xs → count i (unlink s xs) + count i (s ∷ []) ≡ count i xs
unfolding count unlink
count-unlink i s [] h = absurd (omega arith)
count-unlink i s (x ∷ xs) h = ground (arith, count-unlink i s xs)

pub length-unlink : (s : ℕ) (xs : List ℕ) → 0 < count s xs → length (unlink s xs) + 1 ≡ length xs
unfolding count unlink
length-unlink s [] h = absurd (omega arith)
length-unlink s (x ∷ xs) h = ground (arith, length-unlink s xs)

pub find-some :
    (p : ℕ → Bool) (xs : List ℕ) (s : ℕ) → find p xs ≡ some s → (0 < count s xs) × (p s ≡ true)
unfolding count find
find-some p [] s h = ground arith
find-some p (x ∷ xs) s h = ground (arith, find-some p xs s)

pub find-none :
    (p : ℕ → Bool) (xs : List ℕ) (i : ℕ) → find p xs ≡ none → 0 < count i xs → p i ≡ false
unfolding count find
find-none p [] i h k = absurd (omega arith)
find-none p (x ∷ xs) i h k = ground (arith, find-none p xs i)

-- The only address that passes the test is the one that is found.
pub find_unique :
    (p : ℕ → Bool) (xs : List ℕ) (s : ℕ)
    → 0 < count s xs
    → p s ≡ true
    → ((i : ℕ) → 0 < count i xs → p i ≡ true → i ≡ s)
    → find p xs ≡ some s
unfolding count find
find_unique p [] s h t u = absurd (omega arith)
find_unique p (x ∷ xs) s h t u = ground (arith, find_unique p xs s, u x)

count-tail : (i x : ℕ) (xs : List ℕ) → 0 < count i xs → 0 < count i (x ∷ xs)
unfolding count
count-tail i x xs h = ground arith

count-here : (x : ℕ) (xs : List ℕ) → 0 < count x (x ∷ xs)
unfolding count
count-here x xs = ground arith

pub find-nothing :
    (p : ℕ → Bool) (xs : List ℕ) → ((i : ℕ) → 0 < count i xs → p i ≡ false) → find p xs ≡ none
unfolding count find
find-nothing p [] u = refl
find-nothing p (x ∷ xs) u =
    ground (arith, u x (count-here x xs), find-nothing p xs (λ i h. u i (count-tail i x xs h)))
