-- ===== src/PropertyMap/Abstract.antt =====
-- What a property map stands for: the descriptions by name, in the order of insertion.
use echo_js.Base.{ℕ, ◌≡◌, ◌≤◌, refl, List, [], ◌∷◌, ◌++◌, Option, none, some, if◌then◌else◌, arith}
use echo_js.PropertyMap.{PropertyKeys, Cell, PropertyMap, find, unlink, write}
use echo_js.PropertyMap.Chains.{count, find-some}
use echo_js.PropertyMap.Valid.{named}

module _ {ℓ κ} {K : Type ℓ} {D : Type κ} (keys : PropertyKeys K) where
  unfoldable pub get : List (K × D) → K → Option D
  get [] name = none
  get ((a, d) ∷ es) name = let rest = get es name in if keys.same a name then some d else rest

  -- The description of a name that is there is replaced in its place.
  unfoldable pub put : List (K × D) → K → D → List (K × D)
  put [] name desc = (name, desc) ∷ []
  put ((a, d) ∷ es) name desc =
      let rest = put es name desc in if keys.same a name then (a, desc) ∷ es else (a, d) ∷ rest

  unfoldable pub erase : List (K × D) → K → List (K × D)
  erase [] name = []
  erase ((a, d) ∷ es) name =
      let rest = erase es name in if keys.same a name then es else (a, d) ∷ rest

module _ {ℓ κ} {K : Type ℓ} {D : Type κ} where
  unfoldable pub entries_of : (ℕ → Cell K D) → List ℕ → List (K × D)
  entries_of cell [] = []
  entries_of cell (s ∷ ss) = ((cell s).name, (cell s).desc) ∷ entries_of cell ss

  unfoldable pub entries : PropertyMap K D → List (K × D)
  unfolding entries_of
  entries m = entries_of m.cell m.insertion

  unfoldable pub described : (ℕ → Cell K D) → Option ℕ → Option D
  described cell none = none
  described cell (some s) = some (cell s).desc

  pub entries_of-write :
      (cell : ℕ → Cell K D) (ss : List ℕ) (s : ℕ) (c : Cell K D)
      → count s ss ≡ 0
      → entries_of (write cell s c) ss ≡ entries_of cell ss
  unfolding entries_of write count
  entries_of-write cell [] s c h = refl
  entries_of-write cell (x ∷ ss) s c h = ground (arith, entries_of-write cell ss s c)

module _ {ℓ κ} {K : Type ℓ} {D : Type κ} (keys : PropertyKeys K) (name : K) where
  pub get-entries_of :
      (cell : ℕ → Cell K D) (ss : List ℕ)
      → get keys (entries_of cell ss) name ≡ described cell (find (named keys cell name) ss)
  unfolding get entries_of described find named
  get-entries_of cell [] = refl
  get-entries_of cell (s ∷ ss) = ground (arith, get-entries_of cell ss)

  pub put-missing :
      (cell : ℕ → Cell K D) (ss : List ℕ) (desc : D)
      → find (named keys cell name) ss ≡ none
      → put keys (entries_of cell ss) name desc ≡ entries_of cell ss ++ (name, desc) ∷ []
  unfolding put entries_of find named
  put-missing cell [] desc h = refl
  put-missing cell (s ∷ ss) desc h = ground (arith, put-missing cell ss desc)

  pub erase-missing :
      (cell : ℕ → Cell K D) (ss : List ℕ)
      → find (named keys cell name) ss ≡ none
      → erase keys (entries_of cell ss) name ≡ entries_of cell ss
  unfolding erase entries_of find named
  erase-missing cell [] h = refl
  erase-missing cell (s ∷ ss) h = ground (arith, erase-missing cell ss)

  pub erase-found :
      (cell : ℕ → Cell K D) (ss : List ℕ) (s : ℕ)
      → find (named keys cell name) ss ≡ some s
      → erase keys (entries_of cell ss) name ≡ entries_of cell (unlink s ss)
  unfolding erase entries_of find named unlink
  erase-found cell [] s h = ground arith
  erase-found cell (x ∷ ss) s h =
      ground (arith, erase-found cell ss s, find-some (named keys cell name) ss s)

  pub put-found :
      (cell : ℕ → Cell K D) (ss : List ℕ) (s : ℕ) (desc : D)
      → find (named keys cell name) ss ≡ some s
      → count s ss ≤ 1
      → put keys (entries_of cell ss) name desc
        ≡ entries_of (write cell s (record (cell s) { desc = desc })) ss
  unfolding put entries_of find named write count
  put-found cell [] s desc h k = ground arith
  put-found cell (x ∷ ss) s desc h k = ground (
    arith,
    put-found cell ss s desc,
    entries_of-write cell ss s (record (cell s) { desc = desc }),
    find-some (named keys cell name) ss s,
  )
