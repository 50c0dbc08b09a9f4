-- ===== src/ArrayLike/Searching.antt =====
-- indexOf of runtime/ejs-array.c on an object with indices.
use echo_js.Base.{
  ℕ, zero, suc, ◌-◌, ◌≤◌, ◌<◌, ◌≡◌, ◌⊎◌, Bool, true, false, Option, none, some, Outcome, ok, ◌>>=◌,
  ℤ, pos, negsuc, leb, ◌==◌, if◌then◌else◌,
}
use echo_js.Equality.{Memory, strict_eq}
use echo_js.ArrayLike.{ArrayLike}

-- steps 8 to b of indexOf: where the search begins, if it does
unfoldable pub first_index : ℕ → ℤ → Option ℕ
first_index len (pos n) = if leb len n then none else some n
first_index len (negsuc n) = some (len - suc n)

module _ (L : ArrayLike) (mem : Memory) (search_element : ℕ) where
  open L use {Obj, length_of, has_property, get, item, IsValid, has_property-item, get-item}

  -- the loop of indexOf, on the rounds that are left; `none` is -1
  unfoldable pub search_loop : Obj → ℕ → ℕ → Outcome (Option ℕ)
  search_loop o k zero = ok none
  search_loop o k (suc n) = elim (has_property o k) [
    | false ↦ search_loop o (suc k) n
    | true ↦ strict_eq mem search_element (get o k) >>= λ same. elim same [
      | true ↦ ok (some k)
      | false ↦ search_loop o (suc k) n
    ]
  ]

  -- _ejs_Array_prototype_indexOf, on ToInteger of the second argument, or 0
  unfoldable pub index_of : Obj → ℤ → Outcome (Option ℕ)
  unfolding first_index search_loop
  index_of o n =
      let len = length_of o in
      if len == 0
      then ok none
      else elim (first_index len n) [ none ↦ ok none | some k ↦ search_loop o k (len - k) ]

  -- there is no element at the index that is strictly equal to the one searched for
  abbrev pub Differs : Obj → ℕ → Type 0
  Differs o i =
      (item o i ≡ none)
      ⊎ ((v : ℕ) × (item o i ≡ some v) × (strict_eq mem search_element v ≡ ok false))

  -- the first index from `k` to `stop` of an element that is strictly equal, if there is one
  pub data IsFirst (o : Obj) (k stop : ℕ) (result : Option ℕ) : Type 0 where
    at :
        (i v : ℕ)
        → result ≡ some i
        → k ≤ i
        → i < stop
        → item o i ≡ some v
        → strict_eq mem search_element v ≡ ok true
        → ((j : ℕ) → k ≤ j → j < i → Differs o j)
        → IsFirst o k stop result
    nowhere : result ≡ none → ((j : ℕ) → k ≤ j → j < stop → Differs o j) → IsFirst o k stop result

  -- the comparison with every element ends
  abbrev pub Comparable : Obj → Type 0
  Comparable o =
      (i v : ℕ) → item o i ≡ some v → (b : Bool) × (strict_eq mem search_element v ≡ ok b)

-- where the search begins, a negative index being counted from the end
abbrev pub searched_from : ℕ → ℤ → ℕ
searched_from len (pos n) = n
searched_from len (negsuc n) = len - suc n
