-- ===== src/PropertyMap/Insertion.antt =====
-- _ejs_propertymap_insert against the entries in insertion order.
use mathlib.Core.Path.{subst}
use echo_js.Base.{
  ok-injective, aborted_ne_ok, ℕ, ◌*◌, ◌≤◌, ◌<◌, ◌≡◌, refl, ap, sym, ◌∙◌, List, [], ◌∷◌, ◌++◌,
  Option, none, some, Outcome, ok, aborted, ◌⊎◌, inl, inr, if-cases, arith,
}
use echo_js.PropertyMap.{
  PropertyKeys, Cell, PropertyMap, propertymap_insert, find_entry, write, link, redescribe,
  with_buckets, grown, is_null, propertymap_init, nth,
}
use echo_js.PropertyMap.Chains.{count}
use echo_js.PropertyMap.Valid.{is_size, IsTable, IsValid, find_entry-named}
use echo_js.PropertyMap.Abstract.{
  get, put, entries, entries_of, put-found, put-missing, entries_of-write, described,
}
use echo_js.PropertyMap.Lookup.{get-find_entry}
use echo_js.PropertyMap.Growth.{grown-Grown, with_buckets-IsTable, null-length}
use echo_js.PropertyMap.Linking.{write-here, redescribe-IsTable, link-IsTable}

module _ {ℓ κ} {K : Type ℓ} {D : Type κ} where
  entries_of-append :
      (cell : ℕ → Cell K D) (ss : List ℕ) (s : ℕ)
      → entries_of cell (ss ++ s ∷ []) ≡ entries_of cell ss ++ ((cell s).name, (cell s).desc) ∷ []
  unfolding entries_of
  entries_of-append cell [] s = refl
  entries_of-append cell (x ∷ ss) s =
      ap (((cell x).name, (cell x).desc) ∷◌) (entries_of-append cell ss s)

module _ {ℓ κ} {K : Type ℓ} {D : Type κ} (keys : PropertyKeys K) where
  -- What the allocation of the first buckets leaves as it is.
  abbrev Kept : PropertyMap K D → PropertyMap K D → Type (ℓ ⊔ κ)
  Kept m m' =
      (m'.inuse ≡ m.inuse)
      × (entries m' ≡ entries m)
      × (m.nbuckets ≤ m'.nbuckets)
      × (m'.nbuckets ≡ 4099 → m.nbuckets ≡ 4099)

  with_buckets-Kept : (m : PropertyMap K D) → IsTable keys m → Kept m (with_buckets m)
  unfolding with_buckets entries
  with_buckets-Kept m v =
      if-cases (Kept m) (is_null m.buckets)
        (λ h. (
          refl,
          refl,
          omega (arith, v.sized, null-length m.buckets h),
          λ (e : 5 ≡ 4099). absurd (omega arith),
        ))
        (λ h. (refl, refl, omega arith, λ e. e))

  -- What an insertion may end with.
  Inserted : PropertyMap K D → K → D → Outcome (PropertyMap K D) → Type (ℓ ⊔ κ)
  Inserted m name desc r =
      ((r ≡ aborted) × (get keys (entries m) name ≡ none) × (m.nbuckets ≡ 4099) × (m.inuse ≡ 3074))
      ⊎ ((m' : PropertyMap K D) × (r ≡ ok m')
          × IsValid keys m'
          × (entries m' ≡ put keys (entries m) name desc))

  module _ (m : PropertyMap K D) (v : IsTable keys m) (some_bucket : 0 < m.nbuckets)
      (loaded : 4 * m.inuse ≤ 3 * m.nbuckets) (name : K) (desc : D) where
    entries-link :
        find_entry keys m name ≡ none
        → entries (link keys m name desc) ≡ put keys (entries m) name desc
    unfolding entries link
    entries-link e =
        let c : Cell K D = record { hashcode = keys.hash name; name = name; desc = desc } in
        entries_of-append (write m.cell m.fresh c) m.insertion m.fresh
        ∙ ap
            (λ (a : Cell K D).
              entries_of (write m.cell m.fresh c) m.insertion ++ (a.name, a.desc) ∷ [])
            (write-here m.cell m.fresh c)
        ∙ ap (◌++ (name, desc) ∷ [])
            (entries_of-write m.cell m.insertion m.fresh c (v.allocated m.fresh (omega arith)))
        ∙ sym (
            put-missing keys name m.cell m.insertion desc
              (sym (find_entry-named keys m v name) ∙ e))

    grown-link :
        find_entry keys m name ≡ none → Inserted m name desc (grown (link keys m name desc))
    unfolding Inserted link described
    grown-link e =
        elim (grown-Grown keys (link keys m name desc)
          (link-IsTable keys m v some_bucket name desc e) some_bucket (omega (arith, loaded))) [
            | inl p ↦ inl (
              p.0,
              get-find_entry keys m v name ∙ ap (described m.cell) e,
              p.1,
              omega (arith, loaded, p.1, p.2),
            )
            | inr p ↦ inr (p.0, p.1, p.2, p.3 ∙ entries-link e)
          ]

    redescribe-Inserted :
        (s : ℕ) → find_entry keys m name ≡ some s → Inserted m name desc (ok (redescribe m s desc))
    unfolding Inserted entries redescribe
    redescribe-Inserted s e = inr (
      redescribe m s desc,
      refl,
      record { table = redescribe-IsTable keys m v s desc; loaded = loaded },
      sym (
          put-found keys name m.cell m.insertion s desc (sym (find_entry-named keys m v name) ∙ e)
            (v.once s)),
    )

    entered : Option ℕ → Outcome (PropertyMap K D)
    entered none = grown (link keys m name desc)
    entered (some s) = ok (redescribe m s desc)

    entered-Inserted :
        (found : Option ℕ) → find_entry keys m name ≡ found → Inserted m name desc (entered found)
    unfolding entered
    entered-Inserted none e = grown-link e
    entered-Inserted (some s) e = redescribe-Inserted s e

  Kept-Inserted :
      (m m' : PropertyMap K D) (name : K) (desc : D) (r : Outcome (PropertyMap K D))
      → Kept m m'
      → Inserted m' name desc r
      → Inserted m name desc r
  unfolding Inserted
  Kept-Inserted m m' name desc r k (inl p) =
      inl (p.0, ap (λ es. get keys es name) (sym k.1) ∙ p.1, k.3 p.2, sym k.0 ∙ p.3)
  Kept-Inserted m m' name desc r k (inr p) =
      inr (p.0, p.1, p.2, p.3 ∙ ap (λ es. put keys es name desc) k.1)

  -- Inserting into a valid table ends in one of two ways: it aborts, for a new name in a table
  -- of the largest size, 4099, that holds 3074 entries; or it returns a valid table, whose entries
  -- in insertion order have the description in the place of the old one, or behind all others for
  -- a new name.
  pub propertymap_insert-Inserted :
      (m : PropertyMap K D)
      → IsValid keys m
      → (name : K) (desc : D)
      → ((propertymap_insert keys m name desc ≡ aborted)
          × (get keys (entries m) name ≡ none)
          × (m.nbuckets ≡ 4099)
          × (m.inuse ≡ 3074))
        ⊎ ((m' : PropertyMap K D) × (propertymap_insert keys m name desc ≡ ok m')
            × IsValid keys m'
            × (entries m' ≡ put keys (entries m) name desc))
  unfolding propertymap_insert Inserted entered
  propertymap_insert-Inserted m v name desc =
      let m' = with_buckets m in
      let kept = with_buckets-Kept m v.table in
      let (v', h) = with_buckets-IsTable keys m v.table in
      Kept-Inserted m m' name desc (propertymap_insert keys m name desc) kept (
        entered-Inserted m' v' h (omega (arith, kept, v.loaded)) name desc (find_entry keys m' name)
          refl)

  -- A table that an insertion has returned.
  pub propertymap_insert-IsValid :
      (m m' : PropertyMap K D) (name : K) (desc : D)
      → IsValid keys m
      → propertymap_insert keys m name desc ≡ ok m'
      → IsValid keys m'
  propertymap_insert-IsValid m m' name desc v e = elim (propertymap_insert-Inserted m v name desc) [
    | inl p ↦ absurd (aborted_ne_ok m' (sym p.0 ∙ e))
    | inr p ↦ subst (IsValid keys) (ok-injective p.0 m' (sym p.1 ∙ e)) p.2
  ]

  -- _ejs_propertymap_init makes a valid table without entries, whatever the memory holds.
  pub propertymap_init-IsValid :
      (m : PropertyMap K D)
      → IsValid keys (propertymap_init m) × (entries (propertymap_init m) ≡ [])
  unfolding propertymap_init count nth entries is_size
  propertymap_init-IsValid m = (
    record {
      table = record {
        placed = λ (i c : ℕ). ground arith;
        sized = refl;
        hashed = λ i (h : 0 < 0). absurd (omega arith);
        distinct = λ i j (h : 0 < 0) k e. absurd (omega arith);
        once = λ i. omega arith;
        allocated = λ i h. refl;
        counted = refl;
        prime = refl;
      };
      loaded = omega arith;
    },
    refl,
  )
