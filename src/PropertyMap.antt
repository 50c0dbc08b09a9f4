-- ===== src/PropertyMap.antt =====
-- The property maps of runtime/ejs-object.c: a hash table whose entries are also chained in the
-- order of their insertion. An entry is a cell with an address; `bucket` and `insertion` list the
-- addresses along `next_bucket` and `next_insert` (the last of `insertion` is `tail_insert`), so
-- that both chains see a description that is written over.
pub mod Chains
pub mod Buckets
pub mod Valid
pub mod Abstract
pub mod Lookup
pub mod Removal
pub mod Growth
pub mod Linking
pub mod Insertion
pub mod Symbols
pub mod Readback
use echo_js.Base.{
  ℕ, zero, suc, ◌+◌, ◌-◌, ◌*◌, ◌%◌, ◌≡◌, List, [], ◌∷◌, ◌++◌, Bool, true, false, ◌&&◌, Option, none,
  some, Outcome, ok, aborted, ◌==◌, ltb, if◌then◌else◌, set,
}

-- What the table asks of the names: the strict equality of two of them, and PropertyKeyHash.
pub record PropertyKeys {ℓ} (K : Type ℓ) : Type ℓ where
  pub same : K → K → Bool
  pub hash : K → ℕ
  pub same_refl : (a : K) → same a a ≡ true
  pub same_sym : (a b : K) → same a b ≡ true → same b a ≡ true
  pub same_trans : (a b c : K) → same a b ≡ true → same b c ≡ true → same a c ≡ true
  pub hash-same : (a b : K) → same a b ≡ true → hash a ≡ hash b

-- _EJSPropertyMapEntry without its two links
pub record Cell {ℓ κ} (K : Type ℓ) (D : Type κ) : Type (ℓ ⊔ κ) where
  pub hashcode : ℕ
  pub name : K
  pub desc : D

-- EJSPropertyMap; `cell` is the memory of the entries, and `fresh` the next address of malloc.
-- A NULL `buckets` is the empty list.
pub record PropertyMap {ℓ κ} (K : Type ℓ) (D : Type κ) : Type (ℓ ⊔ κ) where
  pub cell : ℕ → Cell K D
  pub fresh : ℕ
  pub insertion : List ℕ
  pub buckets : List (List ℕ)
  pub nbuckets : ℕ
  pub inuse : ℕ

abbrev pub primes : List ℕ
primes = 5 ∷ 17 ∷ 31 ∷ 67 ∷ 131 ∷ 257 ∷ 521 ∷ 1031 ∷ 2053 ∷ 4099 ∷ []

-- the loop of _ejs_propertymap_rehash that looks for the next size
unfoldable pub next_size : ℕ → List ℕ → Option ℕ
next_size n [] = none
next_size n (p ∷ []) = none
next_size n (p ∷ q ∷ qs) = let later = next_size n (q ∷ qs) in if n == p then some q else later

-- `buckets[b]`
unfoldable pub nth : List (List ℕ) → ℕ → List ℕ
nth [] b = []
nth (xs ∷ bs) zero = xs
nth (xs ∷ bs) (suc b) = nth bs b

-- calloc
unfoldable pub empty_buckets : ℕ → List (List ℕ)
empty_buckets zero = []
empty_buckets (suc n) = [] ∷ empty_buckets n

unfoldable pub is_null : List (List ℕ) → Bool
is_null [] = true
is_null (xs ∷ bs) = false

-- `s->next_bucket = buckets[b]; buckets[b] = s;`
unfoldable pub push : ℕ → ℕ → List (List ℕ) → List (List ℕ)
unfolding nth
push b s bs = set bs b (s ∷ nth bs b)

-- the loops over a chain: the first entry that passes the test
unfoldable pub find : (ℕ → Bool) → List ℕ → Option ℕ
find p [] = none
find p (s ∷ ss) = let later = find p ss in if p s then some s else later

-- the address `s` taken out of a chain
unfoldable pub unlink : ℕ → List ℕ → List ℕ
unlink s [] = []
unlink s (x ∷ xs) = let rest = unlink s xs in if x == s then xs else x ∷ rest

module _ {ℓ κ} {K : Type ℓ} {D : Type κ} where
  -- a write to the memory of the entry `s`
  unfoldable pub write : (ℕ → Cell K D) → ℕ → Cell K D → ℕ → Cell K D
  write cell s c i = if i == s then c else cell i

  -- _ejs_propertymap_init
  unfoldable pub propertymap_init : PropertyMap K D → PropertyMap K D
  propertymap_init m = record m { insertion = []; buckets = []; nbuckets = 0; inuse = 0 }

  -- the second loop of _ejs_propertymap_rehash
  unfoldable pub distribute : (ℕ → Cell K D) → ℕ → List ℕ → List (List ℕ) → List (List ℕ)
  unfolding push
  distribute cell n [] bs = bs
  distribute cell n (s ∷ ss) bs = distribute cell n ss (push ((cell s).hashcode % n) s bs)

  -- _ejs_propertymap_rehash
  unfoldable pub propertymap_rehash : PropertyMap K D → Outcome (PropertyMap K D)
  unfolding next_size distribute empty_buckets
  propertymap_rehash m = elim (next_size m.nbuckets primes) [
    | none ↦ aborted
    | some n ↦
        ok (record m { nbuckets = n; buckets = distribute m.cell n m.insertion (empty_buckets n) })
  ]

  -- the test of the loops over a bucket
  unfoldable pub hits : PropertyKeys K → (ℕ → Cell K D) → K → ℕ → Bool
  hits keys cell name s = (cell s).hashcode == keys.hash name && keys.same (cell s).name name

  -- the entry `s` taken out of the bucket `b` and out of the other chain
  unfoldable pub detach : PropertyMap K D → ℕ → ℕ → PropertyMap K D
  unfolding nth unlink
  detach m b s = record m {
    buckets = set m.buckets b (unlink s (nth m.buckets b));
    insertion = unlink s m.insertion;
    inuse = m.inuse - 1;
  }

  -- the first buckets are made by the first insertion
  unfoldable pub with_buckets : PropertyMap K D → PropertyMap K D
  unfolding empty_buckets is_null
  with_buckets m =
      if is_null m.buckets then record m { nbuckets = 5; buckets = empty_buckets 5 } else m

  -- `inuse > nbuckets * 0.75`
  unfoldable pub grown : PropertyMap K D → Outcome (PropertyMap K D)
  unfolding propertymap_rehash
  grown m = if ltb (3 * m.nbuckets) (4 * m.inuse) then propertymap_rehash m else ok m

  -- the entry `s` with its description written over
  unfoldable pub redescribe : PropertyMap K D → ℕ → D → PropertyMap K D
  unfolding write
  redescribe m s desc = record m { cell = write m.cell s (record (m.cell s) { desc = desc }) }

module _ {ℓ κ} {K : Type ℓ} {D : Type κ} (keys : PropertyKeys K) where
  -- the search that the three operations make in the bucket of `name`
  unfoldable pub find_entry : PropertyMap K D → K → Option ℕ
  unfolding find hits nth
  find_entry m name = find (hits keys m.cell name) (nth m.buckets (keys.hash name % m.nbuckets))

  -- _ejs_propertymap_lookup
  unfoldable pub propertymap_lookup : PropertyMap K D → K → Option D
  unfolding find_entry
  propertymap_lookup m name =
      let found = find_entry m name in
      if m.inuse == 0 then none else elim found [ none ↦ none | some s ↦ some (m.cell s).desc ]

  -- _ejs_propertymap_remove
  unfoldable pub propertymap_remove : PropertyMap K D → K → PropertyMap K D
  unfolding find_entry detach
  propertymap_remove m name =
      let found = find_entry m name in
      if m.inuse == 0
      then m
      else elim found [ none ↦ m | some s ↦ detach m (keys.hash name % m.nbuckets) s ]

  -- a new entry, in front of its bucket and behind `tail_insert`
  unfoldable pub link : PropertyMap K D → K → D → PropertyMap K D
  unfolding push write
  link m name desc = record m {
    cell = write m.cell m.fresh (record { hashcode = keys.hash name; name = name; desc = desc });
    fresh = m.fresh + 1;
    buckets = push (keys.hash name % m.nbuckets) m.fresh m.buckets;
    insertion = m.insertion ++ m.fresh ∷ [];
    inuse = m.inuse + 1;
  }

  -- _ejs_propertymap_insert
  unfoldable pub propertymap_insert : PropertyMap K D → K → D → Outcome (PropertyMap K D)
  unfolding with_buckets find_entry redescribe link grown
  propertymap_insert m name desc =
      let m' = with_buckets m in
      elim (find_entry m' name) [
        | some s ↦ ok (redescribe m' s desc)
        | none ↦ grown (link m' name desc)
      ]
