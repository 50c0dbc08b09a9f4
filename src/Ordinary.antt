-- ===== src/Ordinary.antt =====
-- The internal methods of an ordinary object, _ejs_object_specop_* of runtime/ejs-object.c, on a
-- heap in which every object is ordinary: the recursion along the prototypes runs on
-- fuel, and `none` is a run that the fuel ended.
pub mod Lookup
pub mod Written
pub mod Definition
pub mod Deletion
pub mod Values
pub mod Assigning
use echo_js.Base.{
  ℕ, zero, suc, ◌+◌, List, [], ◌∷◌, Bool, true, false, not, ◌&&◌, ◌||◌, Option, none, some, Outcome,
  ok, type_error, aborted, ◌>>=◌, ◌>>◌, require, ◌==◌, if◌then◌else◌,
}
use echo_js.Ejsval.{is_object, is_null, is_string, is_symbol, is_undefined, to_pointer}
use echo_js.Equality.{Memory, same_value, string_at, ucs2_strcmp_zero}
use echo_js.Objects.{undefined_word, null_word}
use echo_js.ObjectHeap.{
  EjsObject, Heap, object_at, store, get_prototype_of, is_behind, link_prototype, set_prototype_of,
  is_extensible, prevent_extensions,
}
use echo_js.PropertyMap.{
  PropertyKeys, PropertyMap, propertymap_lookup, propertymap_insert, propertymap_remove, find_entry,
  redescribe,
}
use echo_js.Descriptors.{
  PropertyDesc, propertydesc_new, or_false, get_getter, get_setter, is_data_descriptor,
  is_accessor_descriptor, is_empty, is_no_change, define_own_property,
}

-- "__proto__"
abbrev pub proto_name : List ℕ
proto_name = 95 ∷ 95 ∷ 112 ∷ 114 ∷ 111 ∷ 116 ∷ 111 ∷ 95 ∷ 95 ∷ []

-- the test in front of step 2 of [[Get]]
unfoldable pub is_proto_name : Memory → ℕ → Outcome Bool
unfolding string_at ucs2_strcmp_zero
is_proto_name mem pname =
    if is_string pname
    then (string_at mem pname >>= (λ s. ok (ucs2_strcmp_zero proto_name s)))
    else ok false

-- What [[Get]] returns: a value, or that of a call of the getter on the receiver.
pub data Access : Type 0 where
  value : ℕ → Access
  call_getter : ℕ → ℕ → Access

-- steps 5 to 8 of [[Get]]
unfoldable pub access : PropertyDesc → ℕ → Access
unfolding is_data_descriptor get_getter
access desc receiver =
    if is_data_descriptor desc
    then value desc.value_or_getter
    else if is_undefined (get_getter desc)
    then value undefined_word
    else call_getter (get_getter desc) receiver

-- What [[Set]] did: a new heap and its answer, or a call of the setter on the receiver and the
-- value, after which it answers true.
pub data Assignment : Type 0 where
  assigned : Heap → Bool → Assignment
  call_setter : ℕ → ℕ → ℕ → Assignment

-- the property in `m` with its description written over
unfoldable pub update :
    PropertyKeys ℕ → PropertyMap ℕ PropertyDesc → ℕ → PropertyDesc → PropertyMap ℕ PropertyDesc
unfolding find_entry redescribe
update keys m name desc = elim (find_entry keys m name) [ none ↦ m | some s ↦ redescribe m s desc ]

-- the `undefined_desc` of [[Set]]
abbrev pub undefined_desc : PropertyDesc
undefined_desc = record propertydesc_new {
  has_value = true;
  value_or_getter = undefined_word;
  writable = some true;
  enumerable = some true;
  configurable = some true;
}

-- the `valueDesc` of [[Set]]
abbrev pub value_desc : ℕ → PropertyDesc
value_desc V = record propertydesc_new { has_value = true; value_or_getter = V }

-- the assertion of PropertyKeyHash
unfoldable pub is_property_key : ℕ → Bool
unfolding is_string is_symbol
is_property_key argument = is_string argument || is_symbol argument

-- ToPropertyKey; `to_string` is ToString.
unfoldable pub to_property_key : (ℕ → ℕ) → ℕ → ℕ
unfolding is_symbol
to_property_key to_string argument = if is_symbol argument then argument else to_string argument

module _ (keys : PropertyKeys ℕ) (to_string : ℕ → ℕ) where
  -- _ejs_object_specop_get_own_property
  unfoldable pub get_own_property : Heap → ℕ → ℕ → Option PropertyDesc
  unfolding object_at propertymap_lookup to_property_key
  get_own_property heap O P =
      propertymap_lookup keys (object_at heap O).properties (to_property_key to_string P)

  -- _ejs_object_specop_has_property
  unfoldable pub has_property : ℕ → Heap → ℕ → ℕ → Option Bool
  unfolding get_own_property get_prototype_of
  has_property zero heap O P = none
  has_property (suc fuel) heap O P =
      let later = has_property fuel heap (get_prototype_of heap O) P in
      elim (get_own_property heap O P) [
        | some desc ↦ some true
        | none ↦ if not (is_null (get_prototype_of heap O)) then later else some false
      ]

  -- _ejs_object_specop_get
  unfoldable pub get : Memory → ℕ → Heap → ℕ → ℕ → ℕ → Option (Outcome Access)
  unfolding get_own_property get_prototype_of is_proto_name access to_property_key
  get mem zero heap O P receiver = none
  get mem (suc fuel) heap O P receiver =
      let later = get mem fuel heap (get_prototype_of heap O) P receiver in
      elim (is_proto_name mem (to_property_key to_string P)) [
        | aborted ↦ some aborted
        | type_error ↦ some type_error
        | ok is_proto ↦
            if is_proto
            then some (ok (value (get_prototype_of heap O)))
            else elim (get_own_property heap O P) [
              | some desc ↦ some (ok (access desc receiver))
              | none ↦
                  if is_null (get_prototype_of heap O)
                  then some (ok (value undefined_word))
                  else later
            ]
      ]

  -- the insertion of step 4
  unfoldable pub insert_new : Heap → ℕ → ℕ → PropertyDesc → Outcome (Heap × Bool)
  unfolding object_at store propertymap_insert is_property_key
  insert_new heap O P desc =
      if is_property_key P
      then (propertymap_insert keys (object_at heap O).properties P desc
          >>= (λ m. ok (store heap O (record (object_at heap O) { properties = m }), true)))
      else aborted

  -- steps 5 to 13 on the property `current`, whose description becomes `d`: it is looked up again
  -- unless nothing changes
  unfoldable pub write_back :
      Heap → ℕ → ℕ → PropertyDesc → PropertyDesc → PropertyDesc → Outcome (Heap × Bool)
  unfolding update store object_at is_property_key is_empty is_no_change
  write_back heap O P desc current d =
      if is_empty desc || is_no_change desc current
      then ok (heap, true)
      else if is_property_key P
      then ok (
        store heap O (record (object_at heap O) {
          properties = update keys (object_at heap O).properties P d;
        }),
        true,
      )
      else aborted

  -- _ejs_object_specop_define_own_property
  unfoldable pub define : Heap → ℕ → ℕ → PropertyDesc → Bool → Outcome (Heap × Bool)
  unfolding get_own_property insert_new write_back define_own_property is_extensible
  define heap O P desc throws =
      let found = get_own_property heap O P in
      elim (define_own_property found (is_extensible heap O) desc) [
        | none ↦ if throws then type_error else ok (heap, false)
        | some d ↦ elim found [
          | none ↦ insert_new heap O P d
          | some current ↦ write_back heap O P desc current d
        ]
      ]

  -- _ejs_object_define_value_property
  unfoldable pub define_value_property :
      Heap → ℕ → ℕ → ℕ → Bool → Bool → Bool → Outcome (Heap × Bool)
  unfolding define
  define_value_property heap obj key v enumerable configurable writable =
      define heap obj key
        (record propertydesc_new {
          has_value = true;
          value_or_getter = v;
          enumerable = some enumerable;
          configurable = some configurable;
          writable = some writable;
        })
        false

  -- steps 5 and 6 of [[Set]] on the property that was found
  unfoldable pub assign : Heap → PropertyDesc → ℕ → ℕ → ℕ → Outcome Assignment
  unfolding is_data_descriptor is_accessor_descriptor get_own_property define define_value_property
      get_setter
  assign heap own P V receiver =
      if is_data_descriptor own
      then if not (or_false own.writable)
        then ok (assigned heap false)
        else if not (is_object receiver)
        then ok (assigned heap false)
        else elim (get_own_property heap receiver P) [
          | some existing ↦
              define heap receiver P (value_desc V) false >>= λ r. ok (assigned r.0 r.1)
          | none ↦
              define_value_property heap receiver P V true true true >>= λ r. ok (assigned r.0 r.1)
        ]
      else if is_accessor_descriptor own
      then if is_undefined (get_setter own)
        then ok (assigned heap false)
        else ok (call_setter (get_setter own) receiver V)
      else ok (assigned heap true)

  -- _ejs_object_specop_set
  unfoldable pub set : ℕ → Heap → ℕ → ℕ → ℕ → ℕ → Option (Outcome Assignment)
  unfolding to_property_key get_own_property get_prototype_of assign
  set zero heap O P V receiver = none
  set (suc fuel) heap O P V receiver =
      let later =
        set fuel heap (get_prototype_of heap O) (to_property_key to_string P) V receiver in
      elim (get_own_property heap O (to_property_key to_string P)) [
        | some own ↦ some (assign heap own (to_property_key to_string P) V receiver)
        | none ↦
            if not (is_null (get_prototype_of heap O))
            then later
            else some (assign heap undefined_desc (to_property_key to_string P) V receiver)
      ]

  -- _ejs_object_specop_delete; _ejs_propertymap_remove is called with `P` as it came
  unfoldable pub delete : Heap → ℕ → ℕ → Bool → Outcome (Heap × Bool)
  unfolding get_own_property object_at store propertymap_remove is_property_key
  delete heap O P throws = elim (get_own_property heap O P) [
    | none ↦ ok (heap, true)
    | some desc ↦
        if or_false desc.configurable
        then (if is_property_key P
            then ok (
              store heap O (record (object_at heap O) {
                properties = propertymap_remove keys (object_at heap O).properties P;
              }),
              true,
            )
            else aborted)
        else if throws
        then type_error
        else ok (heap, false)
  ]

  -- DeletePropertyOrThrow
  unfoldable pub delete_property_or_throw : Heap → ℕ → ℕ → Outcome (Heap × Bool)
  unfolding delete to_property_key
  delete_property_or_throw heap argument property = do
    require (is_object argument)
    r ← delete heap argument (to_property_key to_string property) true
    require r.1
    ok r
