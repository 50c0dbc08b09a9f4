-- ===== src/PropertyMap/Growth.antt =====
-- _ejs_propertymap_rehash, and the first allocation of the buckets.
use echo_js.Base.{
  ℕ, ◌+◌, ◌*◌, ◌%◌, ◌<◌, ◌≤◌, ◌≡◌, refl, ◌∙◌, ◌⊎◌, inl, inr, List, [], ◌∷◌, true, false, Option,
  none, some, Outcome, ok, aborted, ltb, if-cases, length, arith,
}
use echo_js.PropertyMap.{
  PropertyKeys, PropertyMap, primes, next_size, nth, empty_buckets, is_null, distribute,
  propertymap_rehash, with_buckets, grown,
}
use echo_js.PropertyMap.Chains.{count, count-nil}
use echo_js.PropertyMap.Buckets.{
  nth-empty_buckets, length-empty_buckets, length-distribute, count-distribute,
}
use echo_js.PropertyMap.Valid.{is_size, IsTable, IsValid}
use echo_js.PropertyMap.Abstract.{entries}

some_buckets : (bs : List (List ℕ)) → is_null bs ≡ false → 0 < length bs
unfolding is_null
some_buckets [] h = ground arith
some_buckets (xs ∷ bs) h = omega arith

pub null-length : (bs : List (List ℕ)) → is_null bs ≡ true → length bs ≡ 0
unfolding is_null
null-length [] h = refl
null-length (xs ∷ bs) h = ground arith

nth-null : (bs : List (List ℕ)) (b : ℕ) → is_null bs ≡ true → nth bs b ≡ []
unfolding is_null nth
nth-null [] b h = refl
nth-null (xs ∷ bs) b h = ground arith

-- The next size is itself a size, and larger by two at least.
next_size-some : (n q : ℕ) → next_size n primes ≡ some q → (is_size q ≡ true) × (n + 2 ≤ q)
unfolding next_size is_size
next_size-some n q h = ground arith

next_size-none : (n : ℕ) → is_size n ≡ true → next_size n primes ≡ none → (n ≡ 0) ⊎ (n ≡ 4099)
unfolding next_size is_size
next_size-none n h k = ground arith

module _ {ℓ κ} {K : Type ℓ} {D : Type κ} (keys : PropertyKeys K) where
  rehashed : PropertyMap K D → ℕ → PropertyMap K D
  rehashed m n = record m {
    nbuckets = n;
    buckets = distribute m.cell n m.insertion (empty_buckets n);
  }

  rehashed-IsTable :
      (m : PropertyMap K D) (n : ℕ)
      → IsTable keys m
      → is_size n ≡ true
      → 0 < n
      → IsTable keys (rehashed m n)
  unfolding rehashed
  rehashed-IsTable m n v p h = record {
    placed = λ (i c : ℕ). ground (
      arith,
      count-distribute m.cell n m.insertion (empty_buckets n) i c h (length-empty_buckets n),
      nth-empty_buckets n c,
      count-nil i,
    );
    sized = length-distribute m.cell n m.insertion (empty_buckets n) ∙ length-empty_buckets n;
    hashed = v.hashed;
    distinct = v.distinct;
    once = v.once;
    allocated = v.allocated;
    counted = v.counted;
    prime = p;
  }

  -- What the growth behind an insertion ends with.
  abbrev pub Grown : PropertyMap K D → Outcome (PropertyMap K D) → Type (ℓ ⊔ κ)
  Grown m r =
      ((r ≡ aborted) × (m.nbuckets ≡ 4099) × (3 * m.nbuckets < 4 * m.inuse))
      ⊎ ((m' : PropertyMap K D) × (r ≡ ok m') × IsValid keys m' × (entries m' ≡ entries m))

  module _ (m : PropertyMap K D) (v : IsTable keys m) (h : 0 < m.nbuckets)
      (k : 4 * m.inuse ≤ 3 * m.nbuckets + 4) where
    resize : Option ℕ → Outcome (PropertyMap K D)
    resize none = aborted
    resize (some n) = ok (rehashed m n)

    resize-Grown :
        (found : Option ℕ)
        → next_size m.nbuckets primes ≡ found
        → (ltb (3 * m.nbuckets) (4 * m.inuse)) ≡ true
        → Grown m (resize found)
    unfolding resize entries rehashed
    resize-Grown none e full =
        inl (refl, ground (arith, next_size-none m.nbuckets v.prime e), ground arith)
    resize-Grown (some n) e full =
        let (size, more) = next_size-some m.nbuckets n e in
        inr (
          rehashed m n,
          refl,
          record { table = rehashed-IsTable m n v size (omega arith); loaded = omega arith },
          refl,
        )

    pub grown-Grown : Grown m (grown m)
    unfolding grown propertymap_rehash rehashed resize
    grown-Grown =
        if-cases (Grown m) (ltb (3 * m.nbuckets) (4 * m.inuse))
          (λ full. resize-Grown (next_size m.nbuckets primes) refl full)
          (λ roomy. inr (m, refl, record { table = v; loaded = ground arith }, refl))

  unlinked :
      (m : PropertyMap K D)
      → IsTable keys m
      → is_null m.buckets ≡ true
      → (i : ℕ) → count i m.insertion ≡ 0
  unlinked m v h i = ground (
    arith,
    v.placed i ((m.cell i).hashcode % m.nbuckets),
    nth-null m.buckets ((m.cell i).hashcode % m.nbuckets) h,
    count-nil i,
  )

  first_buckets-IsTable :
      (m : PropertyMap K D)
      → IsTable keys m
      → is_null m.buckets ≡ true
      → IsTable keys (record m { nbuckets = 5; buckets = empty_buckets 5 })
  unfolding is_size
  first_buckets-IsTable m v h = record {
    placed = λ (i c : ℕ). ground (arith, nth-empty_buckets 5 c, count-nil i, unlinked m v h i);
    sized = length-empty_buckets 5;
    hashed = v.hashed;
    distinct = v.distinct;
    once = v.once;
    allocated = v.allocated;
    counted = v.counted;
    prime = refl;
  }

  pub with_buckets-IsTable :
      (m : PropertyMap K D)
      → IsTable keys m
      → IsTable keys (with_buckets m) × (0 < (with_buckets m).nbuckets)
  unfolding with_buckets
  with_buckets-IsTable m v =
      if-cases (λ (m' : PropertyMap K D). IsTable keys m' × (0 < m'.nbuckets)) (is_null m.buckets)
        (λ h. (first_buckets-IsTable m v h, omega arith))
        (λ h. (v, omega (arith, v.sized, some_buckets m.buckets h)))
