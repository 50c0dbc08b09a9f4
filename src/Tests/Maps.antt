-- ===== src/Tests/Maps.antt =====
-- runtime/ejs-map.c at concrete maps.
use echo_js.Base.{ℕ, ◌≡◌, refl, List, [], ◌∷◌, true, false, none, ok, arith, map}
use echo_js.Ejsval.View.{double, encode}
use echo_js.Equality.{Memory}
use echo_js.MapData.{Entry, normalise, map_set}
use echo_js.Tests.Opened.{mapping}
use echo_js.MapData.Lookup.{Stored, map_set-Stored}
use echo_js.MapData.Iterator.{key_value_kind, map_iterator_new, item_of, drain, live}
use echo_js.MapData.Iteration.{drain-map_iterator_new}

abbrev mem : Memory
mem p = none

-- keys 1.0 and 2.0 as doubles' words, with the values 7 and 8
abbrev one : ℕ
one = 0x3FF0000000000000

abbrev two : ℕ
two = 0x4000000000000000

abbrev entries : List Entry
entries = record { key = one; value = 7 } ∷ record { key = two; value = 8 } ∷ []

abbrev second : Entry
second = record { key = two; value = 8 }

map_set-Stored_example :
    (ws : List Entry) × (map_set mem entries (encode (double two)) 9 ≡ ok ws)
    × Stored mem entries (encode (double two)) (normalise (encode (double two))) 9 ws
unfolding mapping
map_set-Stored_example =
    map_set-Stored mem entries 9 (double two) (omega arith) tt ((false, refl), ((true, refl), tt))

-- writing 2.0 leaves what 1.0 reads
abbrev rewritten : List Entry
rewritten = record { key = one; value = 7 } ∷ record { key = two; value = 9 } ∷ []

drain-map_iterator_new_example :
    drain 3 (map_iterator_new key_value_kind) entries ≡ map (item_of key_value_kind) (live entries)
unfolding mapping live
drain-map_iterator_new_example = drain-map_iterator_new 3 key_value_kind entries (omega arith)
