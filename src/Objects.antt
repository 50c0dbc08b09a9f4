-- ===== src/Objects.antt =====
-- What the methods of the collections need of the heap: the class of an object (its `ops` table)
-- and the missing argument. EJSVAL_IS_MAP and its kin of runtime/ejs-map.h, ejs-set.h and
-- ejs-promise.h, and the empty marker EJS_NO_ITER_VALUE of runtime/ejsval.h.
use echo_js.Base.{ℕ, List, [], ◌∷◌, Bool, true, false, ◌&&◌, ◌==◌}
use echo_js.Ejsval.{
  shifted_tag_of, type_undefined, type_null, is_object, is_magic, to_int32, to_pointer,
  magic_to_ejsval, is_undefined, is_null, boolean_to_ejsval,
}

-- Which `_ejs_*_specops` table an object points at.
pub data Class : Type 0 where
  plain_object map_object set_object map_iterator set_iterator promise function : Class

abbrev pub same_class : Class → Class → Bool
same_class plain_object plain_object = true
same_class map_object map_object = true
same_class set_object set_object = true
same_class map_iterator map_iterator = true
same_class set_iterator set_iterator = true
same_class promise promise = true
same_class function function = true
same_class _ _ = false

-- `v` is an object, and its `ops` field is that of class `c`.
unfoldable pub has_class : (ℕ → Class) → Class → ℕ → Bool
unfolding is_object to_pointer
has_class class_at c v = is_object v && same_class (class_at (to_pointer v)) c

-- _ejs_undefined, _ejs_null
abbrev pub undefined_word : ℕ
undefined_word = shifted_tag_of type_undefined

abbrev pub null_word : ℕ
null_word = shifted_tag_of type_null

-- `if (argc > i) x = args[i]`, with `_ejs_undefined` otherwise
abbrev pub argument : ℕ → List ℕ → ℕ
argument i [] = undefined_word
argument ℕ.zero (x ∷ xs) = x
argument (ℕ.suc i) (x ∷ xs) = argument i xs

-- MAGIC_TO_EJSVAL_IMPL (EJS_NO_ITER_VALUE), the fourth of EJSWhyMagic
unfoldable pub no_iter_value : ℕ
unfolding magic_to_ejsval
no_iter_value = magic_to_ejsval 3

-- EJSVAL_IS_NO_ITER_VALUE_MAGIC
unfoldable pub is_no_iter_value : ℕ → Bool
unfolding is_magic to_int32
is_no_iter_value v = is_magic v && to_int32 v == 3

-- EJSVAL_IS_NULL_OR_UNDEFINED
unfoldable pub is_null_or_undefined : ℕ → Bool
unfolding is_null is_undefined
is_null_or_undefined v = elim (is_null v) [ true ↦ true | false ↦ is_undefined v ]

-- BOOLEAN_TO_EJSVAL of a C condition
abbrev pub bool_word : Bool → ℕ
bool_word true = boolean_to_ejsval 1
bool_word false = boolean_to_ejsval 0
