-- ===== src/Descriptors.antt =====
-- The property descriptors of runtime/ejs-object.h, and
-- _ejs_object_specop_define_own_property of runtime/ejs-object.c on the descriptor that the object
-- has for the name, if any.
pub mod Fixed
pub mod Described
use echo_js.Base.{
  ℕ, Bool, true, false, not, ◌&&◌, ◌||◌, Option, none, some, ◌==◌, same_bool, if◌then◌else◌,
}
use echo_js.Objects.{undefined_word}

-- EJSPropertyDesc. An attribute is `none` while its `_SET` flag is clear: what its own flag holds
-- is not read then. The union of `value` and `getter` is one field with two flags.
pub record PropertyDesc : Type 0 where
  pub enumerable : Option Bool
  pub configurable : Option Bool
  pub writable : Option Bool
  pub has_value : Bool
  pub has_getter : Bool
  pub has_setter : Bool
  pub value_or_getter : ℕ
  pub setter : ℕ

-- FLAG_TO_BOOL of a `_SET` flag
abbrev pub is_present : Option Bool → Bool
is_present none = false
is_present (some b) = true

-- _ejs_property_desc_get_flag_default with EJS_FALSE
abbrev pub or_false : Option Bool → Bool
or_false none = false
or_false (some b) = b

-- _ejs_property_desc_get_value, _get_getter and _get_setter
unfoldable pub get_value : PropertyDesc → ℕ
get_value d = if d.has_value then d.value_or_getter else undefined_word

unfoldable pub get_getter : PropertyDesc → ℕ
get_getter d = if d.has_getter then d.value_or_getter else undefined_word

unfoldable pub get_setter : PropertyDesc → ℕ
get_setter d = if d.has_setter then d.setter else undefined_word

-- IsAccessorDescriptor
unfoldable pub is_accessor_descriptor : PropertyDesc → Bool
is_accessor_descriptor d = d.has_getter || d.has_setter

-- IsDataDescriptor
unfoldable pub is_data_descriptor : PropertyDesc → Bool
is_data_descriptor d = d.has_value || is_present d.writable

-- IsGenericDescriptor
unfoldable pub is_generic_descriptor : PropertyDesc → Bool
unfolding is_accessor_descriptor is_data_descriptor
is_generic_descriptor d = not (is_accessor_descriptor d) && not (is_data_descriptor d)

-- _ejs_propertydesc_new
abbrev pub propertydesc_new : PropertyDesc
propertydesc_new = record {
  enumerable = none;
  configurable = none;
  writable = none;
  has_value = false;
  has_getter = false;
  has_setter = false;
  value_or_getter = 0;
  setter = 0;
}

-- the attribute of `desc` if it is present, and else that of `dest`
abbrev pub attribute : Option Bool → Option Bool → Option Bool
attribute none dest = dest
attribute (some b) dest = some b

abbrev pub set_getter : PropertyDesc → PropertyDesc → PropertyDesc
set_getter desc dest =
    if desc.has_getter
    then record dest { has_getter = true; value_or_getter = desc.value_or_getter }
    else dest

abbrev pub set_setter : PropertyDesc → PropertyDesc → PropertyDesc
set_setter desc dest =
    if desc.has_setter then record dest { has_setter = true; setter = desc.setter } else dest

abbrev pub set_value : PropertyDesc → PropertyDesc → PropertyDesc
set_value desc dest =
    if desc.has_value
    then record dest { has_value = true; value_or_getter = desc.value_or_getter }
    else dest

abbrev pub set_shared : PropertyDesc → PropertyDesc → PropertyDesc
set_shared desc dest = record dest {
  configurable = attribute desc.configurable dest.configurable;
  enumerable = attribute desc.enumerable dest.enumerable;
}

abbrev pub set_writable : PropertyDesc → PropertyDesc → PropertyDesc
set_writable desc dest = record dest { writable = attribute desc.writable dest.writable }

-- step 4: the descriptor of a new property
unfoldable pub created : PropertyDesc → PropertyDesc
unfolding is_generic_descriptor is_data_descriptor
created desc =
    if is_generic_descriptor desc || is_data_descriptor desc
    then set_writable desc (set_shared desc (set_value desc propertydesc_new))
    else set_shared desc (set_setter desc (set_getter desc propertydesc_new))

-- `Desc->flags & EJS_PROP_FLAGS_SET_MASK` is zero
unfoldable pub is_empty : PropertyDesc → Bool
is_empty d =
    not (is_present d.enumerable)
    && not (is_present d.configurable)
    && not (is_present d.writable)
    && not d.has_value
    && not d.has_getter
    && not d.has_setter

-- the two masked flags are equal
unfoldable pub same_fields : PropertyDesc → PropertyDesc → Bool
same_fields d e =
    same_bool (is_present d.enumerable) (is_present e.enumerable)
    && same_bool (is_present d.configurable) (is_present e.configurable)
    && same_bool (is_present d.writable) (is_present e.writable)
    && same_bool d.has_value e.has_value
    && same_bool d.has_getter e.has_getter
    && same_bool d.has_setter e.has_setter

abbrev pub agrees : Option Bool → Option Bool → Bool
agrees none b = true
agrees (some a) b = same_bool a (or_false b)

-- step 6: no field of `desc` differs from that of `current`
unfoldable pub is_no_change : PropertyDesc → PropertyDesc → Bool
unfolding same_fields get_value get_getter get_setter
is_no_change desc current =
    same_fields desc current
    && agrees desc.enumerable current.enumerable
    && agrees desc.configurable current.configurable
    && agrees desc.writable current.writable
    && (not desc.has_value || get_value desc == get_value current)
    && (not desc.has_getter || get_getter desc == get_getter current)
    && (not desc.has_setter || get_setter desc == get_setter current)

-- steps 7 to 11, where `current` is not configurable: whether nothing is rejected
unfoldable pub is_allowed : PropertyDesc → PropertyDesc → Bool
unfolding is_generic_descriptor is_data_descriptor get_value get_getter get_setter
is_allowed desc current =
    let keeps_data =
      if or_false current.writable
      then true
      else not (or_false desc.writable)
        && (not desc.has_value || get_value desc == get_value current) in
    let keeps_accessor =
      (not desc.has_setter || get_setter desc == get_setter current)
      && (not desc.has_getter || get_getter desc == get_getter current) in
    let keeps_kind =
      if not (same_bool (is_data_descriptor current) (is_data_descriptor desc))
      then false
      else if is_data_descriptor current
      then keeps_data
      else keeps_accessor in
    not (or_false desc.configurable)
    && agrees desc.enumerable current.enumerable
    && (is_generic_descriptor desc || keeps_kind)

-- step 9: `current` cleared for a descriptor of the other kind
unfoldable pub converted : PropertyDesc → PropertyDesc → PropertyDesc
unfolding is_generic_descriptor is_data_descriptor
converted desc current =
    if is_generic_descriptor desc
    then current
    else if same_bool (is_data_descriptor current) (is_data_descriptor desc)
    then current
    else if is_data_descriptor current
    then record current { has_value = false; value_or_getter = undefined_word; writable = none }
    else record current {
      has_getter = false;
      has_setter = false;
      value_or_getter = undefined_word;
      setter = undefined_word;
    }

-- step 12
unfoldable pub applied : PropertyDesc → PropertyDesc → PropertyDesc
applied desc dest =
    set_writable desc (set_shared desc (set_value desc (set_setter desc (set_getter desc dest))))

-- steps 5 to 13, on a property that is there; `none` is REJECT, which throws if `Throw` is set
-- and returns false otherwise
unfoldable pub define_existing : PropertyDesc → PropertyDesc → Option PropertyDesc
unfolding is_empty is_no_change is_allowed converted applied
define_existing desc current =
    if is_empty desc
    then some current
    else if is_no_change desc current
    then some current
    else if not (or_false current.configurable) && not (is_allowed desc current)
    then none
    else some (applied desc (converted desc current))

-- _ejs_object_specop_define_own_property: the descriptor of the property afterwards
unfoldable pub define_own_property : Option PropertyDesc → Bool → PropertyDesc → Option PropertyDesc
unfolding created define_existing
define_own_property none extensible desc = if extensible then some (created desc) else none
define_own_property (some current) extensible desc = define_existing desc current
