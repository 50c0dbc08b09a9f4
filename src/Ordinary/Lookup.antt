-- ===== src/Ordinary/Lookup.antt =====
-- [[HasProperty]] and [[Get]] of runtime/ejs-object.c against the first property of the name along
-- the chain of prototypes, as the entries in insertion order hold it.
use echo_js.Base.{
  ℕ, zero, suc, ◌^◌, ◌<◌, ◌≤◌, ◌≡◌, ap, ◌∙◌, List, [], ◌∷◌, Bool, true, false, Option, none, some,
  ok, All, length, arith,
}
use echo_js.Ejsval.{is_null}
use echo_js.Ejsval.View.{object, encode}
use echo_js.Equality.{Memory}
use echo_js.Objects.{undefined_word}
use echo_js.PropertyMap.{PropertyKeys, propertymap_lookup}
use echo_js.PropertyMap.Valid.{IsValid}
use echo_js.PropertyMap.Abstract
use echo_js.PropertyMap.Lookup.{propertymap_lookup-get}
use echo_js.Descriptors.{PropertyDesc}
use echo_js.ObjectHeap.{Heap, object_at, get_prototype_of}
use echo_js.Ordinary.{
  to_property_key, get_own_property, has_property, is_proto_name, Access, value, access, get,
}
use echo_js.ObjectHeap.Prototype.{Chain, tests-object}

abbrev pub is_some {ℓ} : {A : Type ℓ} → Option A → Bool
is_some none = false
is_some (some a) = true

module _ (keys : PropertyKeys ℕ) where
  -- The property that an object has itself.
  abbrev pub own : Heap → ℕ → ℕ → Option PropertyDesc
  own heap p key = Abstract.get keys (Abstract.entries (heap p).properties) key

  -- The first property of that name on the chain.
  abbrev pub inherited : Heap → List ℕ → ℕ → Option PropertyDesc
  inherited heap [] key = none
  inherited heap (p ∷ ps) key =
      let later = inherited heap ps key in elim (own heap p key) [ some d ↦ some d | none ↦ later ]

  -- Every object of the chain has a valid table.
  abbrev pub Tabled : Heap → List ℕ → Type 0
  Tabled heap ps = All (λ p. IsValid keys (heap p).properties) ps

  module _ (to_string : ℕ → ℕ) where
    pub get_own_property-own :
        (heap : Heap) (p P : ℕ)
        → p < 2 ^ 47
        → IsValid keys (heap p).properties
        → get_own_property keys to_string heap (encode (object p)) P
          ≡ own heap p (to_property_key to_string P)
    unfolding get_own_property object_at
    get_own_property-own heap p P h v =
        ap (λ (a : ℕ). propertymap_lookup keys (heap a).properties (to_property_key to_string P))
          (ground (arith, tests-object p h))
        ∙ propertymap_lookup-get keys (heap p).properties v (to_property_key to_string P)

    -- Along a finite chain of prototypes that starts with the object, whose objects have valid
    -- tables, and with at least as much fuel as it has objects, [[HasProperty]] answers whether
    -- one of them has a property of the name.
    has_property-inherited :
        (heap : Heap) (P fuel O p : ℕ) (ps : List ℕ)
        → Chain heap O (p ∷ ps)
        → Tabled heap (p ∷ ps)
        → length (p ∷ ps) ≤ fuel
        → has_property keys to_string fuel heap O P
          ≡ some (is_some (inherited heap (p ∷ ps) (to_property_key to_string P)))
    unfolding has_property get_prototype_of object_at is_null
    has_property-inherited heap P zero O p ps c v h = absurd (ground arith)
    has_property-inherited heap P (suc fuel) O p [] c v h =
        ground (arith, tests-object p c.1, get_own_property-own heap p P c.1 v.0)
    has_property-inherited heap P (suc fuel) O p (q ∷ ps) c v h = ground (
      arith,
      tests-object p c.1,
      tests-object q c.2.1,
      get_own_property-own heap p P c.1 v.0,
      has_property-inherited heap P fuel (heap p).proto q ps c.2 v.1,
    )

    -- What [[Get]] makes of the property that it finds.
    abbrev pub found : ℕ → Option PropertyDesc → Access
    found receiver none = value undefined_word
    found receiver (some d) = access d receiver

    -- A name other than "__proto__", along a finite chain of prototypes that starts with the object
    -- and whose objects have valid tables, with at least as much fuel as it has objects: [[Get]]
    -- returns what the first property of the name gives for the receiver, and undefined if none of
    -- the objects has one.
    pub get-inherited :
        (mem : Memory) (heap : Heap) (P receiver : ℕ)
        → is_proto_name mem (to_property_key to_string P) ≡ ok false
        → (fuel O p : ℕ) (ps : List ℕ) → Chain heap O (p ∷ ps)
        → Tabled heap (p ∷ ps)
        → length (p ∷ ps) ≤ fuel
        → get keys to_string mem fuel heap O P receiver
          ≡ some (ok (found receiver (inherited heap (p ∷ ps) (to_property_key to_string P))))
    unfolding get get_prototype_of object_at is_null
    get-inherited mem heap P receiver n zero O p ps c v h = absurd (ground arith)
    get-inherited mem heap P receiver n (suc fuel) O p [] c v h =
        ground (arith, n, tests-object p c.1, get_own_property-own heap p P c.1 v.0)
    get-inherited mem heap P receiver n (suc fuel) O p (q ∷ ps) c v h = ground (
      arith,
      n,
      tests-object p c.1,
      tests-object q c.2.1,
      get_own_property-own heap p P c.1 v.0,
      get-inherited mem heap P receiver n fuel (heap p).proto q ps c.2 v.1,
    )
