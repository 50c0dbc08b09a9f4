-- ===== src/PropertyMap/Removal.antt =====
-- _ejs_propertymap_remove.
use echo_js.Base.{
  ℕ, zero, suc, ◌+◌, ◌%◌, ◌≤◌, ◌<◌, ◌≡◌, refl, sym, ◌∙◌, List, [], ◌∷◌, Option, none, some, ◌==◌,
  if◌then◌else◌, set, length, length-set, if-cases, arith,
}
use echo_js.PropertyMap.{
  PropertyKeys, PropertyMap, propertymap_remove, find_entry, detach, nth, unlink,
}
use echo_js.PropertyMap.Chains.{count, count-unlink, length-unlink, find-some}
use echo_js.PropertyMap.Buckets.{nth-set}
use echo_js.PropertyMap.Valid.{IsTable, IsValid, find_entry-named}
use echo_js.PropertyMap.Abstract.{erase, entries, erase-found, erase-missing}
use echo_js.PropertyMap.Lookup.{no_entries}

in_range : (bs : List (List ℕ)) (b s : ℕ) → 0 < count s (nth bs b) → b < length bs
unfolding nth count
in_range [] b s h = absurd (omega arith)
in_range (xs ∷ bs) zero s h = omega arith
in_range (xs ∷ bs) (suc b) s h = omega (arith, in_range bs b s h)

module _ {ℓ κ} {K : Type ℓ} {D : Type κ} (keys : PropertyKeys K) where
  module _ (m : PropertyMap K D) (v : IsTable keys m) (b s : ℕ)
      (here : 0 < count s (nth m.buckets b)) where
    on_chain : (0 < count s m.insertion) × ((m.cell s).hashcode % m.nbuckets ≡ b)
    on_chain = ground (arith, v.placed s b)

    fewer : (i : ℕ) → count i (unlink s m.insertion) + count i (s ∷ []) ≡ count i m.insertion
    fewer i = count-unlink i s m.insertion on_chain.0

    only_home :
        (i c : ℕ)
        → (if (m.cell i).hashcode % m.nbuckets == c then count i (s ∷ []) else 0)
          ≡ (if b == c then count i (s ∷ []) else 0)
    unfolding count
    only_home i c = ground (arith, on_chain)

    detach-placed :
        (i c : ℕ)
        → count i (nth (set m.buckets b (unlink s (nth m.buckets b))) c)
          ≡ (if (m.cell i).hashcode % m.nbuckets == c then count i (unlink s m.insertion) else 0)
    detach-placed i c = ground (
      arith,
      nth-set m.buckets b c (unlink s (nth m.buckets b)) (in_range m.buckets b s here),
      count-unlink i s (nth m.buckets b) here,
      v.placed i c,
      v.placed i b,
      fewer i,
      only_home i c,
    )

    still_there : (i : ℕ) → 0 < count i (unlink s m.insertion) → 0 < count i m.insertion
    still_there i h = omega (arith, fewer i)

    detach-IsTable : IsTable keys (detach m b s)
    unfolding detach
    detach-IsTable = record {
      placed = detach-placed;
      sized = length-set m.buckets b (unlink s (nth m.buckets b)) ∙ v.sized;
      hashed = λ i h. v.hashed i (still_there i h);
      distinct = λ i j h k. v.distinct i j (still_there i h) (still_there j k);
      once = λ (i : ℕ). omega (arith, fewer i, v.once i);
      allocated = λ (i : ℕ) (h : m.fresh ≤ i). omega (arith, fewer i, v.allocated i h);
      counted = omega (arith, v.counted, length-unlink s m.insertion on_chain.0);
      prime = v.prime;
    }

  Removed : PropertyMap K D → K → PropertyMap K D → Type (ℓ ⊔ κ)
  Removed m name m' = IsValid keys m' × (entries m' ≡ erase keys (entries m) name)

  detach-Removed :
      (m : PropertyMap K D) (v : IsValid keys m) (name : K) (s : ℕ)
      → find_entry keys m name ≡ some s
      → Removed m name (detach m (keys.hash name % m.nbuckets) s)
  unfolding entries detach find_entry Removed
  detach-Removed m v name s e = (
    record {
      table = detach-IsTable m v.table (keys.hash name % m.nbuckets) s (find-some _ _ s e).0;
      loaded = omega (arith, v.loaded);
    },
    sym (
        erase-found keys name m.cell m.insertion s
          (sym (find_entry-named keys m v.table name) ∙ e)),
  )

  same-Removed :
      (m : PropertyMap K D) (v : IsValid keys m) (name : K)
      → find_entry keys m name ≡ none
      → Removed m name m
  unfolding entries Removed
  same-Removed m v name e = (
    v,
    sym (
        erase-missing keys name m.cell m.insertion
          (sym (find_entry-named keys m v.table name) ∙ e)),
  )

  taken : PropertyMap K D → K → Option ℕ → PropertyMap K D
  taken m name none = m
  taken m name (some s) = detach m (keys.hash name % m.nbuckets) s

  taken-Removed :
      (m : PropertyMap K D) (v : IsValid keys m) (name : K) (found : Option ℕ)
      → find_entry keys m name ≡ found
      → Removed m name (taken m name found)
  unfolding taken
  taken-Removed m v name none e = same-Removed m v name e
  taken-Removed m v name (some s) e = detach-Removed m v name s e

  erase-none : (es : List (K × D)) (name : K) → length es ≡ 0 → erase keys es name ≡ es
  unfolding erase
  erase-none [] name h = refl
  erase-none (e ∷ es) name h = absurd (omega arith)

  -- Removing a name from a valid table leaves a valid table, whose entries in insertion order are
  -- the old ones without the one of that name; without such an entry they stay as they are.
  pub propertymap_remove-Removed :
      (m : PropertyMap K D)
      → IsValid keys m
      → (name : K)
      → IsValid keys (propertymap_remove keys m name)
        × (entries (propertymap_remove keys m name) ≡ erase keys (entries m) name)
  unfolding propertymap_remove Removed taken find_entry
  propertymap_remove-Removed m v name =
      if-cases (Removed m name) (m.inuse == 0)
        (λ h. (v, sym (erase-none (entries m) name (no_entries keys m v.table h))))
        (λ h. taken-Removed m v name (find_entry keys m name) refl)
