-- ===== src/ObjectHeap.antt =====
-- The heap of ordinary objects, and what runtime/ejs-object.c does to their prototypes and to
-- their extensibility: _ejs_object_specop_get_prototype_of, _set_prototype_of, _is_extensible and
-- _preventextensions. The walk along the prototypes runs on fuel, and `none` is a run that the
-- fuel ended.
pub mod Prototype
pub mod Finite
use echo_js.Base.{
  ℕ, zero, suc, ◌+◌, List, [], ◌∷◌, Bool, true, false, not, ◌&&◌, ◌||◌, Option, none, some, Outcome,
  ok, type_error, aborted, ◌>>=◌, ◌>>◌, require, ◌==◌, if◌then◌else◌,
}
use echo_js.Ejsval.{is_object, is_null, is_string, is_symbol, is_undefined, to_pointer}
use echo_js.Equality.{Memory, same_value, string_at, ucs2_strcmp_zero}
use echo_js.Objects.{undefined_word, null_word}
use echo_js.PropertyMap.{
  PropertyKeys, PropertyMap, propertymap_lookup, propertymap_insert, propertymap_remove, find_entry,
  redescribe,
}
use echo_js.Descriptors.{
  PropertyDesc, propertydesc_new, or_false, get_getter, get_setter, is_data_descriptor,
  is_accessor_descriptor, is_empty, is_no_change, define_own_property,
}

-- EJSObject; `extensible` is EJS_OBJECT_IS_EXTENSIBLE.
pub record EjsObject : Type 0 where
  pub proto : ℕ
  pub extensible : Bool
  pub properties : PropertyMap ℕ PropertyDesc

-- The objects by their addresses.
abbrev pub Heap : Type 0
Heap = ℕ → EjsObject

-- EJSVAL_TO_OBJECT
unfoldable pub object_at : Heap → ℕ → EjsObject
unfolding to_pointer
object_at heap v = heap (to_pointer v)

-- A write to the object behind a word.
unfoldable pub store : Heap → ℕ → EjsObject → Heap
unfolding to_pointer
store heap v o p = if p == to_pointer v then o else heap p

-- _ejs_object_specop_get_prototype_of
unfoldable pub get_prototype_of : Heap → ℕ → ℕ
unfolding object_at
get_prototype_of heap O = (object_at heap O).proto

-- the loop of step 6: whether SameValue finds `O` from `p` on
unfoldable pub is_behind : Memory → Heap → ℕ → ℕ → ℕ → Option (Outcome Bool)
unfolding get_prototype_of same_value
is_behind mem heap O zero p = none
is_behind mem heap O (suc fuel) p =
    let later = is_behind mem heap O fuel (get_prototype_of heap p) in
    if is_null p then some (ok false) else elim (same_value mem p O) [
      | ok found ↦ if found then some (ok true) else later
      | type_error ↦ some type_error
      | aborted ↦ some aborted
    ]

-- steps 6 to 10
unfoldable pub link_prototype : Heap → ℕ → ℕ → Outcome Bool → Outcome (Heap × Bool)
unfolding store object_at
link_prototype heap O V r = do
  found ← r
  if found
      then ok (heap, false)
      else ok (store heap O (record (object_at heap O) { proto = V }), true)

-- _ejs_object_specop_set_prototype_of
unfoldable pub set_prototype_of : Memory → ℕ → Heap → ℕ → ℕ → Option (Outcome (Heap × Bool))
unfolding is_behind link_prototype same_value get_prototype_of object_at
set_prototype_of mem fuel heap O V =
    if not (is_object V) && not (is_null V)
    then some aborted
    else elim (same_value mem V (get_prototype_of heap O)) [
      | ok same ↦
          if same
          then some (ok (heap, true))
          else if not (object_at heap O).extensible
          then some (ok (heap, false))
          else elim (is_behind mem heap O fuel V) [
            | none ↦ none
            | some r ↦ some (link_prototype heap O V r)
          ]
      | type_error ↦ some type_error
      | aborted ↦ some aborted
    ]

-- _ejs_object_specop_is_extensible
unfoldable pub is_extensible : Heap → ℕ → Bool
unfolding object_at
is_extensible heap O = (object_at heap O).extensible

-- _ejs_object_specop_preventextensions
unfoldable pub prevent_extensions : Heap → ℕ → Heap × Bool
unfolding store object_at
prevent_extensions heap O = (store heap O (record (object_at heap O) { extensible = false }), true)
