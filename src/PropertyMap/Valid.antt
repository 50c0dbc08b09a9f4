-- ===== src/PropertyMap/Valid.antt =====
-- The invariant of a property map, and what the search in a bucket finds under it.
use echo_js.Base.{
  ℕ, ◌*◌, ◌%◌, ◌<◌, ◌≤◌, ◌≡◌, inl, inr, List, [], ◌∷◌, Bool, true, false, none, some, ◌==◌,
  if◌then◌else◌, length, Option-cases, ◌∙◌, sym, arith,
}
use echo_js.PropertyMap.{PropertyKeys, Cell, PropertyMap, primes, nth, find, hits, find_entry}
use echo_js.PropertyMap.Chains.{count, find-some, find-none, find_unique, find-nothing}

unfoldable pub one_of : ℕ → List ℕ → Bool
one_of n [] = false
one_of n (p ∷ ps) = let later = one_of n ps in if n == p then true else later

-- A size that the table can have: none yet, or a prime of the list.
unfoldable pub is_size : ℕ → Bool
unfolding one_of
is_size n = one_of n (0 ∷ primes)

module _ {ℓ κ} {K : Type ℓ} {D : Type κ} (keys : PropertyKeys K) where
  pub record IsTable (m : PropertyMap K D) : Type ℓ where
    -- each entry is in the bucket of its hash, as often as it is on the other chain
    pub placed :
        (i c : ℕ)
        → count i (nth m.buckets c)
          ≡ (if (m.cell i).hashcode % m.nbuckets == c then count i m.insertion else 0)
    pub sized : length m.buckets ≡ m.nbuckets
    pub hashed : (i : ℕ) → 0 < count i m.insertion → (m.cell i).hashcode ≡ keys.hash (m.cell i).name
    pub distinct :
        (i j : ℕ)
        → 0 < count i m.insertion
        → 0 < count j m.insertion
        → keys.same (m.cell i).name (m.cell j).name ≡ true
        → i ≡ j
    pub once : (i : ℕ) → count i m.insertion ≤ 1
    pub allocated : (i : ℕ) → m.fresh ≤ i → count i m.insertion ≡ 0
    pub counted : m.inuse ≡ length m.insertion
    pub prime : is_size m.nbuckets ≡ true

  -- and no more than three quarters full
  pub record IsValid (m : PropertyMap K D) : Type ℓ where
    pub table : IsTable m
    pub loaded : 4 * m.inuse ≤ 3 * m.nbuckets

  -- the entries of that name
  unfoldable pub named : (ℕ → Cell K D) → K → ℕ → Bool
  named cell name s = keys.same (cell s).name name

  module _ (m : PropertyMap K D) (v : IsTable m) (name : K) where
    -- where an entry of that name is
    in_bucket :
        (s : ℕ)
        → 0 < count s m.insertion
        → named m.cell name s ≡ true
        → (0 < count s (nth m.buckets (keys.hash name % m.nbuckets)))
          × (hits keys m.cell name s ≡ true)
    unfolding named hits
    in_bucket s h k = ground (
      arith,
      v.placed s (keys.hash name % m.nbuckets),
      v.hashed s h,
      keys.hash-same (m.cell s).name name k,
    )

    in_insertion :
        (s : ℕ)
        → 0 < count s (nth m.buckets (keys.hash name % m.nbuckets))
        → 0 < count s m.insertion
    in_insertion s h = ground (arith, v.placed s (keys.hash name % m.nbuckets))

    hits-named : (s : ℕ) → hits keys m.cell name s ≡ true → named m.cell name s ≡ true
    unfolding named hits
    hits-named s h = ground arith

    one_name :
        (s i : ℕ)
        → 0 < count s m.insertion
        → named m.cell name s ≡ true
        → 0 < count i m.insertion
        → named m.cell name i ≡ true
        → i ≡ s
    unfolding named
    one_name s i h k h' k' =
        v.distinct i s h' h (keys.same_trans _ name _ k' (keys.same_sym _ name k))

    find_entry-found :
        (s : ℕ) → find (named m.cell name) m.insertion ≡ some s → find_entry keys m name ≡ some s
    unfolding find_entry
    find_entry-found s e =
        let (there, same) = find-some (named m.cell name) m.insertion s e in
        let (here, hit) = in_bucket s there same in
        find_unique (hits keys m.cell name) _ s here hit
          (λ i h k. one_name s i there same (in_insertion i h) (hits-named i k))

    missing_hit :
        find (named m.cell name) m.insertion ≡ none
        → (i : ℕ) → 0 < count i (nth m.buckets (keys.hash name % m.nbuckets))
        → hits keys m.cell name i ≡ false
    missing_hit e i h =
        ground
          (arith, hits-named i, find-none (named m.cell name) m.insertion i e (in_insertion i h))

    find_entry-missing : find (named m.cell name) m.insertion ≡ none → find_entry keys m name ≡ none
    unfolding find_entry
    find_entry-missing e = find-nothing (hits keys m.cell name) _ (missing_hit e)

    -- The search in the bucket finds what a search of all entries does.
    pub find_entry-named : find_entry keys m name ≡ find (named m.cell name) m.insertion
    find_entry-named = elim (Option-cases (find (named m.cell name) m.insertion)) [
      | inl e ↦ find_entry-missing e ∙ sym e
      | inr p ↦ find_entry-found p.0 p.1 ∙ sym p.1
    ]
