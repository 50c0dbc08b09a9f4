-- ===== src/Ordinary/Deletion.antt =====
-- [[Delete]] of runtime/ejs-object.c on the heap.
use mathlib.Core.Path.{subst}
use echo_js.Base.{
  ℕ, ◌^◌, ◌<◌, ◌≡◌, refl, ap, sym, ◌∙◌, Bool, true, false, Option, none, some, Outcome, ok,
  type_error, aborted, if◌then◌else◌,
}
use echo_js.Ejsval.View.{object, encode}
use echo_js.PropertyMap.{PropertyKeys, propertymap_remove}
use echo_js.PropertyMap.Valid.{IsValid}
use echo_js.PropertyMap.Readback.{Rewritten, remove-Rewritten}
use echo_js.Descriptors.{PropertyDesc, or_false}
use echo_js.ObjectHeap.{EjsObject, Heap, object_at}
use echo_js.Ordinary.{is_property_key, to_property_key, get_own_property, delete}
use echo_js.Ordinary.Lookup.{own}
use echo_js.Ordinary.Written.{object_at-encode, Written, with_properties, with_properties-Written}
use echo_js.Ordinary.Definition.{found-own}

module _ (keys : PropertyKeys ℕ) (to_string : ℕ → ℕ) (heap : Heap) (p P : ℕ) (word : p < 2 ^ 47)
    (valid : IsValid keys (heap p).properties) (key : is_property_key P ≡ true)
    (kept : to_property_key to_string P ≡ P) where
  abbrev pub Refused : Bool → Outcome (Heap × Bool) → Type 0
  Refused throws r = r ≡ (if throws then type_error else ok (heap, false))

  abbrev pub Removed : Outcome (Heap × Bool) → Type 0
  Removed r = (heap' : Heap) × (r ≡ ok (heap', true)) × Written keys heap heap' p P none

  abbrev pub Decided : Bool → Bool → Outcome (Heap × Bool) → Type 0
  Decided throws true r = Removed r
  Decided throws false r = Refused throws r

  -- What [[Delete]] comes to, by the property that the entries hold.
  abbrev pub Deleted : Bool → Option PropertyDesc → Outcome (Heap × Bool) → Type 0
  Deleted throws none r = r ≡ ok (heap, true)
  Deleted throws (some d) r = Decided throws (or_false d.configurable) r

  cleared : Heap
  cleared =
      with_properties keys heap p word
        (propertymap_remove keys (object_at heap (encode (object p))).properties P)

  cleared-Written : Written keys heap cleared p P none
  unfolding cleared
  cleared-Written =
      with_properties-Written keys heap p word
        (propertymap_remove keys (object_at heap (encode (object p))).properties P) P none
        (subst
          (λ (o : EjsObject).
            Rewritten keys (heap p).properties (propertymap_remove keys o.properties P) P none)
          (sym (object_at-encode heap p word)) (remove-Rewritten keys (heap p).properties P valid))

  deleted_by : Bool → Option PropertyDesc → Outcome (Heap × Bool)
  deleted_by throws none = ok (heap, true)
  deleted_by throws (some d) =
      if or_false d.configurable
      then (if is_property_key P then ok (cleared, true) else aborted)
      else if throws
      then type_error
      else ok (heap, false)

  removed_lem : Removed (if is_property_key P then ok (cleared, true) else aborted)
  removed_lem =
      (cleared, ap (λ (b : Bool). if b then ok (cleared, true) else aborted) key, cleared-Written)

  by_configurable : Bool → Bool → Outcome (Heap × Bool)
  by_configurable throws b =
      if b
      then (if is_property_key P then ok (cleared, true) else aborted)
      else if throws
      then type_error
      else ok (heap, false)

  by_configurable-Decided : (throws b : Bool) → Decided throws b (by_configurable throws b)
  unfolding by_configurable
  by_configurable-Decided throws true = removed_lem
  by_configurable-Decided throws false = refl

  deleted_by-Deleted :
      (throws : Bool) (found : Option PropertyDesc) → Deleted throws found (deleted_by throws found)
  unfolding deleted_by by_configurable
  deleted_by-Deleted throws none = refl
  deleted_by-Deleted throws (some d) = by_configurable-Decided throws (or_false d.configurable)

  by_found :
      (throws : Bool) (found : Option PropertyDesc)
      → elim found [
        | none ↦ ok (heap, true)
        | some d ↦ by_configurable throws (or_false d.configurable)
      ]
        ≡ deleted_by throws found
  unfolding deleted_by by_configurable
  by_found throws none = refl
  by_found throws (some d) = refl

  delete-deleted_by :
      (throws : Bool)
      → delete keys to_string heap (encode (object p)) P throws
        ≡ deleted_by throws (own keys heap p P)
  unfolding delete cleared with_properties by_configurable
  delete-deleted_by throws =
      by_found throws (get_own_property keys to_string heap (encode (object p)) P)
      ∙ ap (deleted_by throws) (found-own keys to_string heap p P word valid key kept)

  -- On an object with a valid table and for a property key, [[Delete]] answers true and changes
  -- nothing if the entries hold no such property; if they hold a configurable one, it answers true
  -- and takes that one out, and the table is valid, and the other properties, the other objects and
  -- the prototype are as before; otherwise it throws a TypeError if it is asked to, and else answers
  -- false and changes nothing.
  pub delete-Deleted :
      (throws : Bool)
      → Deleted throws (own keys heap p P) (delete keys to_string heap (encode (object p)) P throws)
  delete-Deleted throws =
      subst (Deleted throws (own keys heap p P)) (sym (delete-deleted_by throws))
        (deleted_by-Deleted throws (own keys heap p P))
