-- ===== src/Descriptors/Fixed.antt =====
-- What [[DefineOwnProperty]] cannot do to a property that is not configurable, and what it does to
-- the others.
use echo_js.Base.{◌≡◌, true, false, ◌&&◌, Option, some}
use echo_js.Descriptors.{
  PropertyDesc, or_false, get_value, get_getter, get_setter, is_data_descriptor,
  is_accessor_descriptor, is_allowed, converted, applied,
}

-- What stays as it is.
abbrev pub Fixed : PropertyDesc → PropertyDesc → Type 0
Fixed current d =
    (or_false d.configurable ≡ false)
    × (or_false d.enumerable ≡ or_false current.enumerable)
    × (is_data_descriptor d ≡ is_data_descriptor current)
    × (is_data_descriptor current ≡ true
        → or_false current.writable ≡ false
        → (or_false d.writable ≡ false) × (get_value d ≡ get_value current))
    × (is_data_descriptor current ≡ false
        → (get_getter d ≡ get_getter current) × (get_setter d ≡ get_setter current))

module _ (desc current : PropertyDesc)
    (one_kind : (is_accessor_descriptor desc && is_data_descriptor desc) ≡ false)
    (h : or_false current.configurable ≡ false) (k : is_allowed desc current ≡ true) where
  defined : PropertyDesc
  defined = applied desc (converted desc current)

FixedIfSome : PropertyDesc → Option PropertyDesc → Type 0
FixedIfSome current o = (d : PropertyDesc) → o ≡ some d → Fixed current d
