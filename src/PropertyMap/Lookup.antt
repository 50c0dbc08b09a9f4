-- ===== src/PropertyMap/Lookup.antt =====
-- _ejs_propertymap_lookup against the entries in insertion order.
use echo_js.Base.{
  ℕ, ◌≡◌, refl, ap, sym, ◌∙◌, List, [], ◌∷◌, none, true, ◌==◌, length, arith, if-cases,
}
use echo_js.PropertyMap.{PropertyKeys, PropertyMap, propertymap_lookup, find_entry}
use echo_js.PropertyMap.Valid.{IsTable, IsValid, find_entry-named}
use echo_js.PropertyMap.Abstract.{get, entries, entries_of, described, get-entries_of}

module _ {ℓ κ} {K : Type ℓ} {D : Type κ} (keys : PropertyKeys K) where
  pub get-find_entry :
      (m : PropertyMap K D) (v : IsTable keys m) (name : K)
      → get keys (entries m) name ≡ described m.cell (find_entry keys m name)
  unfolding entries
  get-find_entry m v name =
      get-entries_of keys name m.cell m.insertion
      ∙ ap (described m.cell) (sym (find_entry-named keys m v name))

  pub get-none : (es : List (K × D)) (name : K) → length es ≡ 0 → get keys es name ≡ none
  unfolding get
  get-none [] name h = refl
  get-none (e ∷ es) name h = absurd (omega arith)

  length-entries : (m : PropertyMap K D) (ss : List ℕ) → length (entries_of m.cell ss) ≡ length ss
  unfolding entries_of
  length-entries m [] = refl
  length-entries m (s ∷ ss) = ground (arith, length-entries m ss)

  pub no_entries :
      (m : PropertyMap K D) → IsTable keys m → (m.inuse == 0) ≡ true → length (entries m) ≡ 0
  unfolding entries
  no_entries m v h = ground (arith, v.counted, length-entries m m.insertion)

  -- On a valid table, the lookup through the buckets returns the description that the entries in
  -- insertion order hold for the name, and nothing for a name that none of them has.
  pub propertymap_lookup-get :
      (m : PropertyMap K D)
      → IsValid keys m
      → (name : K) → propertymap_lookup keys m name ≡ get keys (entries m) name
  unfolding propertymap_lookup described entries
  propertymap_lookup-get m v name =
      if-cases (λ d. d ≡ get keys (entries m) name) (m.inuse == 0)
        (λ h. sym (get-none (entries m) name (no_entries m v.table h)))
        (λ h. sym (get-find_entry m v.table name))
