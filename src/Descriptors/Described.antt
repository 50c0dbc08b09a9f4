-- ===== src/Descriptors/Described.antt =====
-- What [[DefineOwnProperty]] does when it accepts: the property is as the descriptor says.
use echo_js.Base.{◌≡◌, true, false, ◌&&◌, Option, some}
use echo_js.Descriptors.{
  PropertyDesc, agrees, get_value, get_getter, get_setter, is_data_descriptor,
  is_accessor_descriptor,
}

-- A descriptor is of one kind at most.
abbrev pub OneKind : PropertyDesc → Type 0
OneKind d = (is_accessor_descriptor d && is_data_descriptor d) ≡ false

-- Every field of the descriptor is one of the property, with its value.
abbrev pub Described : PropertyDesc → PropertyDesc → Type 0
Described desc d =
    (desc.has_value ≡ true → get_value d ≡ get_value desc)
    × (desc.has_getter ≡ true → get_getter d ≡ get_getter desc)
    × (desc.has_setter ≡ true → get_setter d ≡ get_setter desc)
    × (agrees desc.enumerable d.enumerable ≡ true)
    × (agrees desc.configurable d.configurable ≡ true)
    × (agrees desc.writable d.writable ≡ true)

DescribedIfSome : PropertyDesc → Option PropertyDesc → Type 0
DescribedIfSome desc o = (d : PropertyDesc) → o ≡ some d → Described desc d × OneKind d
