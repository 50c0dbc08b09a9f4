-- ===== src/Tests/Tables.antt =====
-- The property maps of runtime/ejs-object.c at concrete tables of symbols.
use echo_js.Base.{ℕ, ◌≡◌, refl, [], ◌∷◌, none, some, Outcome, ok, aborted, type_error, ◌⊎◌}
use echo_js.PropertyMap.{
  PropertyMap, propertymap_init, propertymap_insert, propertymap_lookup, propertymap_remove, find,
  hits, nth, push, write, link, redescribe, with_buckets, grown, is_null, empty_buckets, find_entry,
  unlink, detach, propertymap_rehash, next_size, distribute,
}
use echo_js.PropertyMap.Valid.{IsValid}
use echo_js.PropertyMap.Abstract.{get, put, erase, entries, entries_of}
use echo_js.PropertyMap.Lookup.{propertymap_lookup-get}
use echo_js.PropertyMap.Insertion.{
  propertymap_insert-Inserted, propertymap_insert-IsValid, propertymap_init-IsValid,
}
use echo_js.PropertyMap.Removal.{propertymap_remove-Removed}
use echo_js.PropertyMap.Symbols.{symbol_keys, symbol_hash}

-- every operation of a table
unfoldable pub tabling : Unit {0}
unfolding propertymap_init propertymap_insert propertymap_lookup propertymap_remove find hits nth
    push write link redescribe with_buckets grown is_null empty_buckets find_entry unlink detach
    propertymap_rehash next_size distribute get put erase entries entries_of symbol_hash
tabling = tt

abbrev no_memory : PropertyMap ℕ ℕ
no_memory = record {
  cell = λ i. record { hashcode = 0; name = 0; desc = 0 };
  fresh = 0;
  insertion = [];
  buckets = [];
  nbuckets = 0;
  inuse = 0;
}

abbrev after : Outcome (PropertyMap ℕ ℕ) → PropertyMap ℕ ℕ
after (ok m) = m
after type_error = no_memory
after aborted = no_memory

-- Two symbols whose hashes fall into one bucket.
abbrev one_name : PropertyMap ℕ ℕ
one_name = after (propertymap_insert symbol_keys (propertymap_init no_memory) 6 60)

abbrev two_names : PropertyMap ℕ ℕ
two_names = after (propertymap_insert symbol_keys one_name 16 160)

two_names-entries : entries two_names ≡ (6, 60) ∷ (16, 160) ∷ []
unfolding tabling
two_names-entries = refl

one_name-IsValid : IsValid symbol_keys one_name
unfolding tabling
one_name-IsValid =
    propertymap_insert-IsValid symbol_keys (propertymap_init no_memory) one_name 6 60
      (propertymap_init-IsValid symbol_keys no_memory).0 refl

two_names-IsValid : IsValid symbol_keys two_names
unfolding tabling
two_names-IsValid =
    propertymap_insert-IsValid symbol_keys one_name two_names 16 160 one_name-IsValid refl

propertymap_lookup-get_example :
    propertymap_lookup symbol_keys two_names 16 ≡ get symbol_keys (entries two_names) 16
propertymap_lookup-get_example = propertymap_lookup-get symbol_keys two_names two_names-IsValid 16

propertymap_insert-Inserted_example :
    ((propertymap_insert symbol_keys two_names 6 61 ≡ aborted)
      × (get symbol_keys (entries two_names) 6 ≡ none)
      × (two_names.nbuckets ≡ 4099)
      × (two_names.inuse ≡ 3074))
    ⊎ ((m' : PropertyMap ℕ ℕ) × (propertymap_insert symbol_keys two_names 6 61 ≡ ok m')
        × IsValid symbol_keys m'
        × (entries m' ≡ put symbol_keys (entries two_names) 6 61))
propertymap_insert-Inserted_example =
    propertymap_insert-Inserted symbol_keys two_names two_names-IsValid 6 61

propertymap_remove-Removed_example :
    IsValid symbol_keys (propertymap_remove symbol_keys two_names 6)
    × (entries (propertymap_remove symbol_keys two_names 6)
        ≡ erase symbol_keys (entries two_names) 6)
propertymap_remove-Removed_example =
    propertymap_remove-Removed symbol_keys two_names two_names-IsValid 6

-- The lookups after a removal from the middle of a bucket.
removed_test :
    propertymap_lookup symbol_keys (propertymap_remove symbol_keys two_names 6) 16 ≡ some 160
unfolding tabling
removed_test = refl

missing_test : propertymap_lookup symbol_keys (propertymap_remove symbol_keys two_names 6) 6 ≡ none
unfolding tabling
missing_test = refl
