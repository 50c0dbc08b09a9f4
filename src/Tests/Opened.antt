-- ===== src/Tests/Opened.antt =====
-- Names that open, on an `unfolding` line, all that a run of a comparison or of a collection reads.
use echo_js.Ejsval.{
  to_tag, is_double, is_undefined, is_null, is_string, is_boolean, is_symbol, is_object, is_magic,
  to_int32, to_pointer, to_boolean, double_is_nan, double_eq, double_is_negzero,
}
use echo_js.Ejsval.View.{encode}
use echo_js.Equality.{
  same_value_zero, same_value, strict_eq, same_string, same_value_zero_number, same_value_number,
  strict_eq_number, ucs2_strcmp_zero, string_at,
}
use echo_js.Objects.{no_iter_value, is_no_iter_value, has_class}
use echo_js.MapData
use echo_js.SetData
use echo_js.SetData.Iterator

-- every comparison of two words
unfoldable pub comparing : Unit {0}
unfolding to_tag is_double is_undefined is_null is_string is_boolean is_symbol is_object is_magic
    to_int32 to_pointer to_boolean encode same_value_zero same_value strict_eq same_string
    same_value_zero_number same_value_number strict_eq_number ucs2_strcmp_zero string_at
    no_iter_value is_no_iter_value double_is_nan double_eq double_is_negzero has_class
comparing = tt

-- every operation of a Map
unfoldable pub mapping : Unit {0}
unfolding comparing MapData.is_live MapData.matches MapData.map_get MapData.map_has
    MapData.overwrite MapData.map_set MapData.map_size MapData.map_clear MapData.normalise
mapping = tt

-- every operation of a Set
unfoldable pub setting : Unit {0}
unfolding comparing SetData.is_live SetData.set_has SetData.set_add SetData.set_delete
    SetData.set_size Iterator.live Iterator.seek Iterator.set_iterator_next
setting = tt
