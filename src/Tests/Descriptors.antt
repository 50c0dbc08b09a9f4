-- ===== src/Tests/Descriptors.antt =====
-- [[DefineOwnProperty]] at concrete descriptors.
use echo_js.Base.{◌≡◌, refl, true, false, none, some}
use echo_js.Descriptors.{
  PropertyDesc, propertydesc_new, get_value, get_getter, get_setter, is_data_descriptor,
  is_accessor_descriptor, is_generic_descriptor, created, is_empty, same_fields, is_no_change,
  is_allowed, converted, applied, define_existing, define_own_property,
}
use echo_js.Descriptors.Fixed.{Fixed}
use echo_js.Descriptors.Described.{Described}

-- every function of a definition
unfoldable pub defining : Unit {0}
unfolding is_data_descriptor is_accessor_descriptor is_generic_descriptor created is_empty
    same_fields is_no_change is_allowed converted applied define_existing define_own_property
    get_value get_getter get_setter
defining = tt

-- `{ value: 7 }`, and what it makes of a property that is not there
abbrev seven : PropertyDesc
seven = record propertydesc_new { has_value = true; value_or_getter = 7 }

-- the frozen property of value 7
abbrev frozen : PropertyDesc
frozen = record seven { configurable = some false; writable = some false; enumerable = some true }

-- `{ value: 7, enumerable: true }`
abbrev again : PropertyDesc
again = record seven { enumerable = some true }

-- A frozen property does not take another value.
refused_test : define_own_property (some frozen) true (record seven { value_or_getter = 8 }) ≡ none
unfolding defining
refused_test = refl
