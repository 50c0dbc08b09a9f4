-- ===== src/PropertyMap/Linking.antt =====
-- The two ends of _ejs_propertymap_insert: a description written over, and a new entry linked.
use echo_js.Base.{
  ℕ, ◌+◌, ◌%◌, ◌≤◌, ◌<◌, ◌≡◌, refl, ap, sym, ◌∙◌, [], ◌∷◌, ◌++◌, none, Bool, true, false, ◌⊎◌, inl,
  inr, ◌==◌, if◌then◌else◌, if-cases, Bool-cases, ==_iff, length-append, arith,
}
use echo_js.PropertyMap.{
  PropertyKeys, Cell, PropertyMap, find_entry, nth, push, write, link, redescribe,
}
use echo_js.PropertyMap.Chains.{count, count-append, find-none}
use echo_js.PropertyMap.Buckets.{count-push, length-push}
use echo_js.PropertyMap.Valid.{IsTable, find_entry-named, named}

module _ {ℓ κ} {K : Type ℓ} {D : Type κ} where
  write-other :
      (cell : ℕ → Cell K D) (s i : ℕ) (c : Cell K D) → (i == s) ≡ false → write cell s c i ≡ cell i
  unfolding write
  write-other cell s i c h = ap (λ (b : Bool). if b then c else cell i) h

  pub write-here : (cell : ℕ → Cell K D) (s : ℕ) (c : Cell K D) → write cell s c s ≡ c
  unfolding write
  write-here cell s c = ap (λ (b : Bool). if b then c else cell s) ((==_iff s s).1 refl)

  -- Writing over a description leaves the names and the hashes.
  module _ (cell : ℕ → Cell K D) (s : ℕ) (desc : D) where
    redescribed : ℕ → Cell K D
    redescribed = write cell s (record (cell s) { desc = desc })

    name-redescribed : (i : ℕ) → (redescribed i).name ≡ (cell i).name
    unfolding redescribed write
    name-redescribed i =
        if-cases (λ (c : Cell K D). c.name ≡ (cell i).name) (i == s)
          (λ h. ap (λ j. (cell j).name) (sym ((==_iff i s).0 h))) (λ h. refl)

    hashcode-redescribed : (i : ℕ) → (redescribed i).hashcode ≡ (cell i).hashcode
    unfolding redescribed write
    hashcode-redescribed i =
        if-cases (λ (c : Cell K D). c.hashcode ≡ (cell i).hashcode) (i == s)
          (λ h. ap (λ j. (cell j).hashcode) (sym ((==_iff i s).0 h))) (λ h. refl)

module _ {ℓ κ} {K : Type ℓ} {D : Type κ} (keys : PropertyKeys K) where
  well_hashed :
      (c c' : Cell K D) → c ≡ c' → c'.hashcode ≡ keys.hash c'.name → c.hashcode ≡ keys.hash c.name
  well_hashed c c' e h =
      ap (λ (a : Cell K D). a.hashcode) e ∙ h ∙ ap (λ (a : Cell K D). keys.hash a.name) (sym e)

  same_cells :
      (c d c' d' : Cell K D)
      → c ≡ c'
      → d ≡ d'
      → keys.same c.name d.name ≡ true
      → keys.same c'.name d'.name ≡ true
  same_cells c d c' d' e f h =
      ap (λ (a : Cell K D). keys.same a.name d'.name) (sym e)
      ∙ ap (λ (a : Cell K D). keys.same c.name a.name) (sym f)
      ∙ h

  module _ (m : PropertyMap K D) (v : IsTable keys m) where
    pub redescribe-IsTable : (s : ℕ) (desc : D) → IsTable keys (redescribe m s desc)
    unfolding redescribe redescribed
    redescribe-IsTable s desc =
        let hash = λ (i : ℕ). hashcode-redescribed m.cell s desc i in
        let name = λ (i : ℕ). name-redescribed m.cell s desc i in
        record {
          placed = λ (i c : ℕ). ground (arith, v.placed i c, hash i);
          sized = v.sized;
          hashed = λ i h. hash i ∙ v.hashed i h ∙ ap keys.hash (sym (name i));
          distinct = λ i j h k e. v.distinct i j h k (
              ap (λ a. keys.same a (m.cell j).name) (sym (name i))
              ∙ ap (keys.same _) (sym (name j))
              ∙ e);
          once = v.once;
          allocated = v.allocated;
          counted = v.counted;
          prime = v.prime;
        }

  module _ (m : PropertyMap K D) (v : IsTable keys m) (some_bucket : 0 < m.nbuckets) (name : K)
      (desc : D) (missing : find_entry keys m name ≡ none) where
    new_cell : Cell K D
    new_cell = record { hashcode = keys.hash name; name = name; desc = desc }

    linked : ℕ → Cell K D
    linked = write m.cell m.fresh new_cell

    hashcode-linked :
        (i : ℕ)
        → (linked i).hashcode ≡ (if i == m.fresh then keys.hash name else (m.cell i).hashcode)
    unfolding linked write new_cell
    hashcode-linked i =
        if-cases
          (λ (c : Cell K D).
            c.hashcode ≡ (if i == m.fresh then keys.hash name else (m.cell i).hashcode))
          (i == m.fresh) (λ h. ground arith) (λ h. ground arith)

    -- The new entry, or one that was there.
    Known : ℕ → Type (ℓ ⊔ κ)
    Known i =
        ((i ≡ m.fresh) × (linked i ≡ new_cell))
        ⊎ ((0 < count i m.insertion) × (linked i ≡ m.cell i))

    older :
        (i : ℕ)
        → 0 < count i (m.insertion ++ m.fresh ∷ [])
        → (i == m.fresh) ≡ false
        → 0 < count i m.insertion
    unfolding count
    older i h e = ground (arith, count-append i m.insertion m.fresh)

    known : (i : ℕ) → 0 < count i (m.insertion ++ m.fresh ∷ []) → Known i
    unfolding Known linked
    known i h = elim (Bool-cases (i == m.fresh)) [
      | inl e ↦ inl (
        (==_iff i m.fresh).0 e,
        ap (write m.cell m.fresh new_cell) ((==_iff i m.fresh).0 e)
            ∙ write-here m.cell m.fresh new_cell,
      )
      | inr e ↦ inr (older i h e, write-other m.cell m.fresh i new_cell e)
    ]

    unnamed : (i : ℕ) → 0 < count i m.insertion → keys.same (m.cell i).name name ≡ false
    unfolding named
    unnamed i h =
        find-none (named keys m.cell name) m.insertion i
          (sym (find_entry-named keys m v name) ∙ missing) h

    clash : (i : ℕ) → 0 < count i m.insertion → keys.same (m.cell i).name name ≡ true → ⊥
    clash i h e = ground (arith, unnamed i h)

    link-placed :
        (i c : ℕ)
        → count i (nth (push (keys.hash name % m.nbuckets) m.fresh m.buckets) c) ≡ (
            if (linked i).hashcode % m.nbuckets == c
            then count i (m.insertion ++ m.fresh ∷ [])
            else 0)
    unfolding count
    link-placed i c = ground (
      arith,
      v.placed i c,
      v.allocated i,
      count-push i m.fresh (keys.hash name % m.nbuckets) c m.buckets (omega (arith, v.sized)),
      count-append i m.insertion m.fresh,
      hashcode-linked i,
    )

    link-hashed :
        (i : ℕ)
        → 0 < count i (m.insertion ++ m.fresh ∷ [])
        → (linked i).hashcode ≡ keys.hash (linked i).name
    unfolding Known new_cell
    link-hashed i h = elim (known i h) [
      | inl p ↦ well_hashed (linked i) new_cell p.1 refl
      | inr p ↦ well_hashed (linked i) (m.cell i) p.1 (v.hashed i p.0)
    ]

    link-distinct :
        (i j : ℕ)
        → 0 < count i (m.insertion ++ m.fresh ∷ [])
        → 0 < count j (m.insertion ++ m.fresh ∷ [])
        → keys.same (linked i).name (linked j).name ≡ true
        → i ≡ j
    unfolding Known new_cell
    link-distinct i j h k e =
        let both = known i h in
        elim both [
          | inl p ↦ elim (known j k) [
            | inl q ↦ p.0 ∙ sym q.0
            | inr q ↦ absurd (
                clash j q.0 (
                  keys.same_sym _ _
                    (same_cells (linked i) (linked j) new_cell (m.cell j) p.1 q.1 e)))
          ]
          | inr p ↦ elim (known j k) [
            | inl q ↦
                absurd
                  (clash i p.0 (same_cells (linked i) (linked j) (m.cell i) new_cell p.1 q.1 e))
            | inr q ↦
                v.distinct i j p.0 q.0
                  (same_cells (linked i) (linked j) (m.cell i) (m.cell j) p.1 q.1 e)
          ]
        ]

    once_more :
        (i : ℕ)
        → (count i (m.insertion ++ m.fresh ∷ []) ≡ count i m.insertion)
          ⊎ ((i ≡ m.fresh) × (count i (m.insertion ++ m.fresh ∷ []) ≡ 1))
    unfolding count
    once_more i = ground (arith, count-append i m.insertion m.fresh, v.allocated i)

    pub link-IsTable : IsTable keys (link keys m name desc)
    unfolding link linked new_cell
    link-IsTable = record {
      placed = link-placed;
      sized = length-push m.fresh (keys.hash name % m.nbuckets) m.buckets ∙ v.sized;
      hashed = link-hashed;
      distinct = link-distinct;
      once = λ (i : ℕ). omega (arith, v.once i, once_more i);
      allocated = λ (i : ℕ) (h : m.fresh + 1 ≤ i). omega (arith, v.allocated i, once_more i);
      counted = omega (arith, v.counted, length-append m.insertion (m.fresh ∷ []));
      prime = v.prime;
    }
