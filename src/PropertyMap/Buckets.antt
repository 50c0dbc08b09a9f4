-- ===== src/PropertyMap/Buckets.antt =====
-- The arrays of buckets: what `push` and the loop of _ejs_propertymap_rehash put where.
use echo_js.Base.{
  ℕ, zero, suc, ◌+◌, ◌%◌, ◌<◌, ◌≡◌, List, [], ◌∷◌, ◌==◌, if◌then◌else◌, set, length, length-set,
  refl, arith,
}
use echo_js.PropertyMap.{Cell, nth, empty_buckets, push, distribute}
use echo_js.PropertyMap.Chains.{count, count-nil, count-cons}

pub nth-empty_buckets : (n b : ℕ) → nth (empty_buckets n) b ≡ []
unfolding nth empty_buckets
nth-empty_buckets zero b = refl
nth-empty_buckets (suc n) zero = refl
nth-empty_buckets (suc n) (suc b) = nth-empty_buckets n b

pub length-empty_buckets : (n : ℕ) → length (empty_buckets n) ≡ n
unfolding empty_buckets
length-empty_buckets zero = refl
length-empty_buckets (suc n) = ground (arith, length-empty_buckets n)

pub nth-set :
    (bs : List (List ℕ)) (b c : ℕ) (xs : List ℕ)
    → b < length bs
    → nth (set bs b xs) c ≡ (if b == c then xs else nth bs c)
unfolding nth
nth-set [] b c xs h = absurd (omega arith)
nth-set (y ∷ bs) zero zero xs h = refl
nth-set (y ∷ bs) zero (suc c) xs h = ground arith
nth-set (y ∷ bs) (suc b) zero xs h = ground arith
nth-set (y ∷ bs) (suc b) (suc c) xs h = ground (arith, nth-set bs b c xs (omega arith))

pub count-push :
    (i s b c : ℕ) (bs : List (List ℕ))
    → b < length bs
    → count i (nth (push b s bs) c) ≡ count i (nth bs c) + (if b == c then count i (s ∷ []) else 0)
unfolding push
count-push i s b c bs h = ground (arith, nth-set bs b c (s ∷ nth bs b) h, count-cons i s (nth bs b))

pub length-push : (s b : ℕ) (bs : List (List ℕ)) → length (push b s bs) ≡ length bs
unfolding push
length-push s b bs = length-set bs b (s ∷ nth bs b)

module _ {ℓ κ} {K : Type ℓ} {D : Type κ} (cell : ℕ → Cell K D) (n : ℕ) where
  -- An entry is pushed onto the bucket of its own hash.
  home-push :
      (i s c : ℕ)
      → (if (cell s).hashcode % n == c then count i (s ∷ []) else 0)
        ≡ (if (cell i).hashcode % n == c then count i (s ∷ []) else 0)
  unfolding count
  home-push i s c = ground arith

  pub length-distribute :
      (ss : List ℕ) (bs : List (List ℕ)) → length (distribute cell n ss bs) ≡ length bs
  unfolding distribute
  length-distribute [] bs = refl
  length-distribute (s ∷ ss) bs = ground (
    arith,
    length-distribute ss (push ((cell s).hashcode % n) s bs),
    length-push s ((cell s).hashcode % n) bs,
  )

  pub count-distribute :
      (ss : List ℕ) (bs : List (List ℕ)) (i c : ℕ)
      → 0 < n
      → length bs ≡ n
      → count i (nth (distribute cell n ss bs) c)
        ≡ count i (nth bs c) + (if (cell i).hashcode % n == c then count i ss else 0)
  unfolding distribute
  count-distribute [] bs i c h k = ground (arith, count-nil i)
  count-distribute (s ∷ ss) bs i c h k =
      let b = (cell s).hashcode % n in
      ground (
        arith,
        count-distribute ss (push b s bs) i c h (omega (arith, length-push s b bs)),
        count-push i s b c bs (omega arith),
        home-push i s c,
        count-cons i s ss,
      )
