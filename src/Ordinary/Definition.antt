-- ===== src/Ordinary/Definition.antt =====
-- [[DefineOwnProperty]] of runtime/ejs-object.c on the heap.
use mathlib.Core.Path.{subst}
use mathlib.Core.Option.{some-injective}
use echo_js.Base.{
  ℕ, ◌^◌, ◌<◌, ◌≡◌, refl, ap, sym, ◌∙◌, ◌⊎◌, inl, inr, Bool, true, false, ◌||◌, Option, none, some,
  Outcome, ok, type_error, aborted, ◌>>=◌, if◌then◌else◌, if-cases, Option-cases, arith,
}
use echo_js.Ejsval.View.{object, encode}
use echo_js.PropertyMap.{PropertyKeys, PropertyMap, find_entry, redescribe, propertymap_insert}
use echo_js.PropertyMap.Valid.{IsValid}
use echo_js.PropertyMap.Abstract
use echo_js.PropertyMap.Lookup.{get-find_entry}
use echo_js.PropertyMap.Insertion.{propertymap_insert-Inserted}
use echo_js.PropertyMap.Readback.{Rewritten, insert-Rewritten, redescribe-Rewritten}
use echo_js.Descriptors.{PropertyDesc, is_empty, is_no_change, define_existing, define_own_property}
use echo_js.ObjectHeap.{EjsObject, Heap, object_at, is_extensible}
use echo_js.Ordinary.{
  is_property_key, to_property_key, get_own_property, update, insert_new, write_back, define,
}
use echo_js.Ordinary.Lookup.{own, get_own_property-own}
use echo_js.Ordinary.Written.{object_at-encode, Written, with_properties, with_properties-Written}

-- A property that stays as it is.
unchanged_lem :
    (desc current : PropertyDesc)
    → (is_empty desc || is_no_change desc current) ≡ true
    → define_existing desc current ≡ some current
unfolding define_existing
unchanged_lem desc current h = ground arith

module _ (keys : PropertyKeys ℕ) where
  -- The table is of the largest size and full.
  abbrev pub IsFull : PropertyMap ℕ PropertyDesc → Type 0
  IsFull m = (m.nbuckets ≡ 4099) × (m.inuse ≡ 3074)

  module _ (to_string : ℕ → ℕ) (heap : Heap) (p P : ℕ) (word : p < 2 ^ 47)
      (valid : IsValid keys (heap p).properties) (key : is_property_key P ≡ true)
      (kept : to_property_key to_string P ≡ P) where
    abbrev pub O : ℕ
    O = encode (object p)

    pub found-own : get_own_property keys to_string heap O P ≡ own keys heap p P
    found-own = get_own_property-own keys to_string heap p P word valid ∙ ap (own keys heap p) kept

    -- What a definition of the property comes to, where [[DefineOwnProperty]] makes `o` of it.
    unfoldable pub Defined : Bool → Option PropertyDesc → Outcome (Heap × Bool) → Type 0
    Defined throws none r = r ≡ (if throws then type_error else ok (heap, false))
    Defined throws (some d) r =
        ((r ≡ aborted) × (own keys heap p P ≡ none) × IsFull (heap p).properties)
        ⊎ ((heap' : Heap) × (r ≡ ok (heap', true)) × Written keys heap heap' p P (some d))

    same_table : (object_at heap O).properties ≡ (heap p).properties
    same_table = ap (λ (o : EjsObject). o.properties) (object_at-encode heap p word)

    entered : PropertyMap ℕ PropertyDesc → Outcome (Heap × Bool)
    entered m = ok (with_properties keys heap p word m, true)

    insert_new_lem :
        (d : PropertyDesc)
        → insert_new keys to_string heap O P d
          ≡ (propertymap_insert keys (heap p).properties P d >>= entered)
    unfolding insert_new with_properties entered
    insert_new_lem d =
        ap
          (λ (b : Bool).
            if b
            then (propertymap_insert keys (object_at heap O).properties P d >>= entered)
            else aborted)
          key
        ∙ ap (λ m. propertymap_insert keys m P d >>= entered) same_table

    insert_new-Defined :
        (throws : Bool) (d : PropertyDesc)
        → Defined throws (some d) (insert_new keys to_string heap O P d)
    unfolding Defined entered
    insert_new-Defined throws d =
        elim (propertymap_insert-Inserted keys (heap p).properties valid P d) [
          | inl q ↦ inl (insert_new_lem d ∙ ap (◌>>= entered) q.0, q.1, (q.2, q.3))
          | inr q ↦ inr (
            with_properties keys heap p word q.0,
            insert_new_lem d ∙ ap (◌>>= entered) q.1,
            with_properties-Written keys heap p word q.0 P (some d)
                (insert-Rewritten keys (heap p).properties q.0 P d valid q.1),
          )
        ]

    no_entry :
        (current : PropertyDesc)
        → own keys heap p P ≡ some current
        → ¬ (find_entry keys (heap p).properties P ≡ none)
    unfolding Abstract.described
    no_entry current found e =
        let missing : some current ≡ none =
          sym found
          ∙ get-find_entry keys (heap p).properties valid.table P
          ∙ ap (Abstract.described (heap p).properties.cell) e in
        ground (arith, missing)

    -- The entry of a property that is there.
    update-Rewritten :
        (current d : PropertyDesc)
        → own keys heap p P ≡ some current
        → Rewritten keys
            (heap p).properties
            (update keys (object_at heap O).properties P d)
            P
            (some d)
    unfolding update
    update-Rewritten current d found =
        subst (λ m. Rewritten keys (heap p).properties (update keys m P d) P (some d))
          (sym same_table)
          (elim (Option-cases (find_entry keys (heap p).properties P)) [
            | inl e ↦ absurd (no_entry current found e)
            | inr (s, e) ↦
                subst
                  (λ f.
                    Rewritten keys (heap p).properties
                      (elim f [
                        | none ↦ (heap p).properties
                        | some i ↦ redescribe (heap p).properties i d
                      ])
                      P (some d))
                  (sym e) (redescribe-Rewritten keys (heap p).properties P d s valid e)
          ])

    unchanged-Written :
        (current : PropertyDesc)
        → own keys heap p P ≡ some current
        → Written keys heap heap p P (some current)
    unchanged-Written current found = (valid, found, λ other h. refl, refl, refl, λ r h. refl)

    write_back-Defined :
        (throws : Bool) (desc current d : PropertyDesc)
        → own keys heap p P ≡ some current
        → define_existing desc current ≡ some d
        → Defined throws (some d) (write_back keys to_string heap O P desc current d)
    unfolding Defined write_back entered with_properties
    write_back-Defined throws desc current d found e =
        if-cases (Defined throws (some d)) (is_empty desc || is_no_change desc current)
          (λ h. inr (
            heap,
            refl,
            subst (λ a. Written keys heap heap p P (some a))
                (some-injective current d (sym (unchanged_lem desc current h) ∙ e))
                (unchanged-Written current found),
          ))
          (λ h. inr (
            with_properties keys heap p word (update keys (object_at heap O).properties P d),
            ap
                (λ (b : Bool).
                  if b then entered (update keys (object_at heap O).properties P d) else aborted)
                key,
            with_properties-Written keys heap p word (update keys (object_at heap O).properties P d)
                P (some d) (update-Rewritten current d found),
          ))

    -- The run by the two things it asks: the property that is there, and what
    -- [[DefineOwnProperty]] makes of it.
    defined_by :
        Bool → PropertyDesc → Option PropertyDesc → Option PropertyDesc → Outcome (Heap × Bool)
    defined_by throws desc found none = if throws then type_error else ok (heap, false)
    defined_by throws desc none (some d) = insert_new keys to_string heap O P d
    defined_by throws desc (some current) (some d) =
        write_back keys to_string heap O P desc current d

    defined_by-Defined :
        (throws : Bool) (desc : PropertyDesc) (found made : Option PropertyDesc)
        → own keys heap p P ≡ found
        → define_own_property found (heap p).extensible desc ≡ made
        → Defined throws made (defined_by throws desc found made)
    unfolding Defined defined_by define_own_property
    defined_by-Defined throws desc found none h e = refl
    defined_by-Defined throws desc none (some d) h e = insert_new-Defined throws d
    defined_by-Defined throws desc (some current) (some d) h e =
        write_back-Defined throws desc current d h e

    by_found :
        (throws : Bool) (desc : PropertyDesc) (found made : Option PropertyDesc)
        → elim made [
          | none ↦ if throws then type_error else ok (heap, false)
          | some d ↦ elim found [
            | none ↦ insert_new keys to_string heap O P d
            | some current ↦ write_back keys to_string heap O P desc current d
          ]
        ]
          ≡ defined_by throws desc found made
    unfolding defined_by
    by_found throws desc found none = refl
    by_found throws desc none (some d) = refl
    by_found throws desc (some current) (some d) = refl

    define-defined_by :
        (throws : Bool) (desc : PropertyDesc)
        → define keys to_string heap O P desc throws
          ≡ defined_by throws desc
              (own keys heap p P)
              (define_own_property (own keys heap p P) (heap p).extensible desc)
    unfolding define is_extensible
    define-defined_by throws desc =
        let found = get_own_property keys to_string heap O P in
        by_found throws desc found (define_own_property found (is_extensible heap O) desc)
        ∙ ap (λ f. defined_by throws desc f (define_own_property f (is_extensible heap O) desc))
            found-own
        ∙ ap
            (λ (o : EjsObject).
              defined_by throws desc (own keys heap p P)
                (define_own_property (own keys heap p P) o.extensible desc))
            (object_at-encode heap p word)

    pub define-Defined :
        (throws : Bool) (desc : PropertyDesc)
        → Defined throws
            (define_own_property (own keys heap p P) (heap p).extensible desc)
            (define keys to_string heap O P desc throws)
    define-Defined throws desc =
        subst (Defined throws (define_own_property (own keys heap p P) (heap p).extensible desc))
          (sym (define-defined_by throws desc))
          (defined_by-Defined throws desc (own keys heap p P)
            (define_own_property (own keys heap p P) (heap p).extensible desc) refl refl)
