-- ===== src/PropertyMap/Readback.antt =====
-- What a table of runtime/ejs-object.c answers after an insertion or a removal.
use mathlib.Core.Path.{subst}
use echo_js.Base.{
  ℕ, ◌<◌, ◌≡◌, refl, ap, sym, ◌∙◌, inl, inr, List, [], ◌∷◌, false, Option, none, some, Bool-cases,
  Option-cases, arith, ok, ok-injective, aborted_ne_ok,
}
use echo_js.PropertyMap.{
  PropertyKeys, PropertyMap, find, unlink, find_entry, redescribe, propertymap_insert,
  propertymap_remove,
}
use echo_js.PropertyMap.Chains.{count, count_self, count-unlink, find-some, find-nothing}
use echo_js.PropertyMap.Valid.{IsTable, IsValid, named, find_entry-named}
use echo_js.PropertyMap.Abstract.{
  get, put, erase, entries, described, get-entries_of, erase-found, erase-missing, put-found,
}
use echo_js.PropertyMap.Linking.{redescribe-IsTable}
use echo_js.PropertyMap.Insertion.{propertymap_insert-Inserted}
use echo_js.PropertyMap.Removal.{propertymap_remove-Removed}

module _ {ℓ κ} {K : Type ℓ} {D : Type κ} (keys : PropertyKeys K) where
  get-put_self :
      (es : List (K × D)) (name : K) (d : D) → get keys (put keys es name d) name ≡ some d
  unfolding get put
  get-put_self [] name d = ground (arith, keys.same_refl name)
  get-put_self ((a, b) ∷ es) name d = ground (arith, get-put_self es name d)

  get-put_other :
      (es : List (K × D)) (name other : K) (d : D)
      → keys.same name other ≡ false
      → get keys (put keys es name d) other ≡ get keys es other
  unfolding get put
  get-put_other [] name other d h = ground arith
  get-put_other ((a, b) ∷ es) name other d h =
      ground
        (arith, get-put_other es name other d h, keys.same_sym a name, keys.same_trans name a other)

  get-erase_other :
      (es : List (K × D)) (name other : K)
      → keys.same name other ≡ false
      → get keys (erase keys es name) other ≡ get keys es other
  unfolding get erase
  get-erase_other [] name other h = refl
  get-erase_other ((a, b) ∷ es) name other h =
      ground
        (arith, get-erase_other es name other h, keys.same_sym a name, keys.same_trans name a other)

  module _ (m : PropertyMap K D) (v : IsTable keys m) (name : K) where
    -- No other entry has the name.
    only_named :
        (s i : ℕ)
        → find (named keys m.cell name) m.insertion ≡ some s
        → 0 < count i (unlink s m.insertion)
        → named keys m.cell name i ≡ false
    unfolding named
    only_named s i e h =
        let at = find-some (named keys m.cell name) m.insertion s e in
        let fewer = count-unlink i s m.insertion at.0 in
        elim (Bool-cases (keys.same (m.cell i).name name)) [
          | inr f ↦ f
          | inl t ↦
              let same =
                v.distinct i s (omega (arith, fewer)) at.0
                  (keys.same_trans _ _ _ t (keys.same_sym _ _ at.1)) in
              absurd (
                omega (
                  arith,
                  h,
                  same,
                  v.once s,
                  count_self s,
                  count-unlink s s m.insertion at.0,
                  ap (λ j. count j (unlink s m.insertion)) same,
                ))
        ]

    pub get-erase_self : get keys (erase keys (entries m) name) name ≡ none
    unfolding entries described
    get-erase_self = elim (Option-cases (find (named keys m.cell name) m.insertion)) [
      | inl e ↦
          ap (λ es. get keys es name) (erase-missing keys name m.cell m.insertion e)
          ∙ get-entries_of keys name m.cell m.insertion
          ∙ ap (described m.cell) e
      | inr (s, e) ↦
          ap (λ es. get keys es name) (erase-found keys name m.cell m.insertion s e)
          ∙ get-entries_of keys name m.cell (unlink s m.insertion)
          ∙ ap (described m.cell) (
              find-nothing (named keys m.cell name) (unlink s m.insertion)
                (λ i h. only_named s i e h))
    ]

  -- The table `m'` is valid and as `m`, but for the description of `name`.
  unfoldable pub Rewritten : PropertyMap K D → PropertyMap K D → K → Option D → Type (ℓ ⊔ κ)
  Rewritten m m' name d =
      IsValid keys m'
      × (get keys (entries m') name ≡ d)
      × ((other : K)
          → keys.same name other ≡ false
          → get keys (entries m') other ≡ get keys (entries m) other)

  put-Rewritten :
      (m m' : PropertyMap K D) (name : K) (d : D)
      → IsValid keys m'
      → entries m' ≡ put keys (entries m) name d
      → Rewritten m m' name (some d)
  unfolding Rewritten
  put-Rewritten m m' name d v e = (
    v,
    ap (λ es. get keys es name) e ∙ get-put_self (entries m) name d,
    λ other h. ap (λ es. get keys es other) e ∙ get-put_other (entries m) name other d h,
  )

  pub insert-Rewritten :
      (m m' : PropertyMap K D) (name : K) (d : D)
      → IsValid keys m
      → propertymap_insert keys m name d ≡ ok m'
      → Rewritten m m' name (some d)
  insert-Rewritten m m' name d v e = elim (propertymap_insert-Inserted keys m v name d) [
    | inl p ↦ absurd (aborted_ne_ok m' (sym p.0 ∙ e))
    | inr p ↦
        let same = ok-injective p.0 m' (sym p.1 ∙ e) in
        subst (λ a. Rewritten m a name (some d)) same (put-Rewritten m p.0 name d p.2 p.3)
  ]

  pub redescribe-Rewritten :
      (m : PropertyMap K D) (name : K) (d : D) (s : ℕ)
      → IsValid keys m
      → find_entry keys m name ≡ some s
      → Rewritten m (redescribe m s d) name (some d)
  unfolding entries redescribe
  redescribe-Rewritten m name d s v e =
      put-Rewritten m (redescribe m s d) name d
        (record { table = redescribe-IsTable keys m v.table s d; loaded = v.loaded })
        (sym (
          put-found keys name m.cell m.insertion s d
            (sym (find_entry-named keys m v.table name) ∙ e) (v.table.once s)))

  pub remove-Rewritten :
      (m : PropertyMap K D) (name : K)
      → IsValid keys m
      → Rewritten m (propertymap_remove keys m name) name none
  unfolding Rewritten
  remove-Rewritten m name v =
      let r = propertymap_remove-Removed keys m v name in
      (
        r.0,
        ap (λ es. get keys es name) r.1 ∙ get-erase_self m v.table name,
        λ other h. ap (λ es. get keys es other) r.1 ∙ get-erase_other (entries m) name other h,
      )
