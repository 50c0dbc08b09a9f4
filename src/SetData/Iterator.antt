-- ===== src/SetData/Iterator.antt =====
-- The Set iterators of runtime/ejs-set.c.
use echo_js.Base.{ℕ, ◌+◌, List, [], ◌∷◌, Bool, true, false, Option, none, some, ltb, if◌then◌else◌}
use echo_js.MapData.Iterator.{Kind, key_value_kind, Item, word, pair, IterResult}
use echo_js.SetData.{is_live}

-- EJSSetIterator, with the kinds of EJSSetIteratorKind in the order of EJSMapIteratorKind;
-- `iterated` is false once the set is dropped for `_ejs_undefined`
pub record SetIterator : Type 0 where
  pub iterated : Bool
  pub kind : Kind
  pub next_index : ℕ

-- _ejs_set_iterator_new, on a Set
unfoldable pub set_iterator_new : Kind → SetIterator
set_iterator_new kind = record { iterated = true; kind = kind; next_index = 0 }

unfoldable pub item_of : Kind → ℕ → Item
item_of key_value_kind e = pair e e
item_of _ e = word e

-- the loop of step 10
unfoldable pub seek : ℕ → ℕ → List ℕ → Option ℕ
unfolding is_live
seek index i [] = none
seek index i (e ∷ es) =
    let later = seek index (i + 1) es in
    let skipped = seek index i es in
    if is_live e then (if ltb i index then later else some e) else skipped

-- _ejs_SetIterator_prototype_next, after the checks of the receiver
unfoldable pub set_iterator_next : SetIterator → List ℕ → SetIterator × IterResult
unfolding seek item_of
set_iterator_next it entries =
    if it.iterated
    then elim (seek it.next_index 0 entries) [
      | some e ↦ (record it { next_index = it.next_index + 1 }, some (item_of it.kind e))
      | none ↦ (record it { iterated = false }, none)
    ]
    else (it, none)

-- The live values, in insertion order.
unfoldable pub live : List ℕ → List ℕ
unfolding is_live
live [] = []
live (e ∷ es) = let rest = live es in if is_live e then e ∷ rest else rest
