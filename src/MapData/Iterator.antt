-- ===== src/MapData/Iterator.antt =====
-- The Map iterators of runtime/ejs-map.c.
use echo_js.Base.{
  ℕ, zero, suc, ◌+◌, List, [], ◌∷◌, Bool, true, false, Option, none, some, ltb, if◌then◌else◌,
}
use echo_js.MapData.{Entry, is_live}

-- EJSMapIteratorKind
pub data Kind : Type 0 where
  key_kind value_kind key_value_kind : Kind

-- EJSMapIterator; `iterated` is false once the map is dropped for `_ejs_undefined`
pub record MapIterator : Type 0 where
  pub iterated : Bool
  pub kind : Kind
  pub next_index : ℕ

-- `value` of the result object: a word, or the new array of a key and a value
pub data Item : Type 0 where
  word : ℕ → Item
  pair : ℕ → ℕ → Item

-- _ejs_create_iter_result: `some item` with `done` false, or undefined with `done` true
abbrev pub IterResult : Type 0
IterResult = Option Item

-- _ejs_map_iterator_new, on a Map
unfoldable pub map_iterator_new : Kind → MapIterator
map_iterator_new kind = record { iterated = true; kind = kind; next_index = 0 }

unfoldable pub item_of : Kind → Entry → Item
item_of key_kind e = word e.key
item_of value_kind e = word e.value
item_of key_value_kind e = pair e.key e.value

-- The loop of step 10: `i` counts the live entries, and the first one with `index <= i` is taken.
unfoldable pub seek : ℕ → ℕ → List Entry → Option Entry
unfolding is_live
seek index i [] = none
seek index i (e ∷ es) =
    let later = seek index (i + 1) es in
    let skipped = seek index i es in
    if is_live e then (if ltb i index then later else some e) else skipped

-- _ejs_MapIterator_prototype_next, after the checks of the receiver
unfoldable pub map_iterator_next : MapIterator → List Entry → MapIterator × IterResult
unfolding seek item_of
map_iterator_next it entries =
    if it.iterated
    then elim (seek it.next_index 0 entries) [
      | some e ↦ (record it { next_index = it.next_index + 1 }, some (item_of it.kind e))
      | none ↦ (record it { iterated = false }, none)
    ]
    else (it, none)

-- one round of a loop over an iterator
abbrev pub resume : (MapIterator → List Item) → MapIterator × IterResult → List Item
resume rest (it, some x) = x ∷ rest it
resume rest (it, none) = []

-- `for (const x of map)` with nothing but the iterator's calls: the items of at most `n` calls
unfoldable pub drain : ℕ → MapIterator → List Entry → List Item
unfolding map_iterator_next
drain zero it entries = []
drain (suc n) it entries = resume (λ later. drain n later entries) (map_iterator_next it entries)

-- The live entries, in insertion order.
unfoldable pub live : List Entry → List Entry
unfolding is_live
live [] = []
live (e ∷ es) = let rest = live es in if is_live e then e ∷ rest else rest
