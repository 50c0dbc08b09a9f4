-- ===== src/Tests/Ordinary.antt =====
-- The ordinary objects of runtime/ejs-object.c at a heap of two objects.
use echo_js.Base.{
  ℕ, ◌≡◌, refl, [], ◌∷◌, true, false, not, none, some, ok, type_error, aborted, ◌==◌, if◌then◌else◌,
  arith,
}
use echo_js.Ejsval.View.{object, symbol, encode}
use echo_js.Equality.{Memory}
use echo_js.Objects.{null_word}
use echo_js.PropertyMap.{PropertyMap, propertymap_init, propertymap_insert}
use echo_js.PropertyMap.Valid.{IsValid}
use echo_js.PropertyMap.Insertion.{propertymap_insert-IsValid, propertymap_init-IsValid}
use echo_js.PropertyMap.Symbols.{symbol_keys}
use echo_js.Descriptors.{PropertyDesc, propertydesc_new}
use echo_js.ObjectHeap.{
  Heap, object_at, store, get_prototype_of, is_behind, link_prototype, set_prototype_of,
  is_extensible,
}
use echo_js.Ordinary.{
  value, assigned, is_proto_name, access, update, is_property_key, to_property_key,
  get_own_property, has_property, get, insert_new, write_back, define, define_value_property,
  assign, set, delete,
}
use echo_js.ObjectHeap.Prototype.{Chain, passes, set_prototype_of-Chain}
use echo_js.ObjectHeap.Finite.{set_prototype_of-StaysFinite}
use echo_js.Ordinary.Lookup.{inherited, found, get-inherited}
use echo_js.Ordinary.Written.{Written}
use echo_js.Ordinary.Deletion.{Deleted, delete-Deleted}
use echo_js.Ordinary.Assigning.{get-set}
use echo_js.Tests.Opened.{comparing}
use echo_js.Tests.Tables.{tabling}
use echo_js.Tests.Descriptors.{defining}

-- every internal method
unfoldable objecting : Unit {0}
unfolding tabling comparing defining object_at store get_prototype_of is_behind link_prototype
    set_prototype_of is_extensible is_proto_name access update is_property_key to_property_key
    get_own_property has_property get insert_new write_back define define_value_property assign set
    delete
objecting = tt

abbrev blank : PropertyMap ℕ PropertyDesc
blank = propertymap_init (record {
  cell = λ i. record { hashcode = 0; name = 0; desc = propertydesc_new };
  fresh = 0;
  insertion = [];
  buckets = [];
  nbuckets = 0;
  inuse = 0;
})

-- a symbol
abbrev name : ℕ
name = encode (symbol 6)

-- a configurable and writable property of the value 7
abbrev seven : PropertyDesc
seven = record propertydesc_new {
  has_value = true;
  value_or_getter = 7;
  writable = some true;
  enumerable = some true;
  configurable = some true;
}

abbrev one_property : PropertyMap ℕ PropertyDesc
one_property = elim (propertymap_insert symbol_keys blank name seven) [
  | ok m ↦ m
  | type_error ↦ blank
  | aborted ↦ blank
]

-- The object at 32 has the property, and is the prototype of the object at 16.
abbrev two_objects : Heap
two_objects p =
    if p == 32
    then record { proto = null_word; extensible = true; properties = one_property }
    else record { proto = encode (object 32); extensible = true; properties = blank }

abbrev no_strings : Memory
no_strings a = none

abbrev same_word : ℕ → ℕ
same_word v = v

blank-IsValid : IsValid symbol_keys blank
unfolding tabling
blank-IsValid = (propertymap_init-IsValid symbol_keys blank).0

one_property-IsValid : IsValid symbol_keys one_property
unfolding tabling comparing
one_property-IsValid =
    propertymap_insert-IsValid symbol_keys blank one_property name seven blank-IsValid refl

name_key : is_property_key name ≡ true
unfolding objecting
name_key = refl

name_kept : to_property_key same_word name ≡ name
unfolding objecting
name_kept = refl

parent-Chain : Chain two_objects (encode (object 32)) (32 ∷ [])
parent-Chain = (refl, omega arith, refl)

child-Chain : Chain two_objects (encode (object 16)) (16 ∷ 32 ∷ [])
child-Chain = (refl, omega arith, parent-Chain)

-- The child cannot become the prototype of its own prototype.
set_prototype_of-Chain_example :
    set_prototype_of no_strings 3 two_objects (encode (object 32)) (encode (object 16))
    ≡ some (
        ok (
          if encode (object 16) == null_word
          then (two_objects, true)
          else if not true
          then (two_objects, false)
          else if passes 32 (16 ∷ 32 ∷ [])
          then (two_objects, false)
          else (
            store two_objects
                (encode (object 32))
                (record (two_objects 32) { proto = encode (object 16) }),
            true,
          )))
set_prototype_of-Chain_example =
    set_prototype_of-Chain no_strings two_objects 32 (16 ∷ 32 ∷ []) [] (encode (object 16)) 3
      (omega arith) child-Chain refl (omega arith)

-- The child loses its prototype.
abbrev orphaned : Heap
orphaned = store two_objects (encode (object 16)) (record (two_objects 16) { proto = null_word })

set_prototype_of-StaysFinite_example : (ts : _) × Chain orphaned (encode (object 16)) ts
unfolding objecting
set_prototype_of-StaysFinite_example =
    set_prototype_of-StaysFinite no_strings two_objects 16 [] (32 ∷ []) null_word 1 (omega arith)
      refl parent-Chain (omega arith) orphaned true refl (encode (object 16)) (16 ∷ 32 ∷ [])
      child-Chain

get-inherited_example :
    get symbol_keys same_word no_strings 2 two_objects (encode (object 16)) name 0
    ≡ some (
        ok (
          found symbol_keys same_word 0
            (inherited symbol_keys two_objects (16 ∷ 32 ∷ []) (to_property_key same_word name))))
unfolding objecting
get-inherited_example =
    get-inherited symbol_keys same_word no_strings two_objects name 0 refl 2 (encode (object 16)) 16
      (32 ∷ []) child-Chain (blank-IsValid, (one_property-IsValid, tt)) (omega arith)

-- What a run of the theorems' definitions is at this heap.
inherited_test :
    get symbol_keys same_word no_strings 2 two_objects (encode (object 16)) name 0
    ≡ some (ok (value 7))
unfolding objecting
inherited_test = refl

delete-Deleted_example :
    Deleted symbol_keys same_word two_objects 32 name
      (omega arith)
      one_property-IsValid
      name_key
      name_kept
      true
      (some seven)
      (delete symbol_keys same_word two_objects (encode (object 32)) name true)
unfolding objecting
delete-Deleted_example =
    delete-Deleted symbol_keys same_word two_objects 32 name (omega arith) one_property-IsValid
      name_key name_kept true

-- The child gets a property of its own.
abbrev after_set : Heap
after_set =
    elim (set symbol_keys same_word 2 two_objects (encode (object 16)) name 8
      (encode (object 16))) [ some (ok (assigned h b)) ↦ h | _ ↦ two_objects ]

get-set_example :
    (get symbol_keys same_word no_strings 1 after_set (encode (object 16)) name 0
      ≡ some (ok (value 8)))
    × ((d : PropertyDesc) × Written symbol_keys two_objects after_set 16 name (some d))
unfolding objecting
get-set_example =
    get-set symbol_keys same_word two_objects 16 name (32 ∷ []) (omega arith) blank-IsValid refl
      refl no_strings 8 0 2 0 after_set refl child-Chain (blank-IsValid, (one_property-IsValid, tt))
      (omega arith) refl refl
