-- ===== src/MapData/Iteration.antt =====
-- What a Map iterator returns, and what clearing the map leaves of it.
use mathlib.Core.List.{map}
use echo_js.Base.{
  ℕ, zero, suc, ◌+◌, ◌-◌, ◌≤◌, ◌≡◌, refl, ◌∙◌, ap, List, [], ◌∷◌, ◌++◌, true, false, none, some, ok,
  arith, ltb, get_elem?, length, drop, drop-get_some, drop-get_none, drop-past, Option-cases,
  Bool-cases, inl, inr, get_elem?-cons,
}
use native.Mathlib.Numerals.{add-one}
use echo_js.Equality.{Memory}
use echo_js.Objects.{no_iter_value, is_no_iter_value, undefined_word}
use echo_js.MapData.{Entry, is_live, map_size, map_clear, map_get, matches}
use echo_js.MapData.Iterator.{
  Kind, MapIterator, Item, map_iterator_new, item_of, seek, map_iterator_next, drain, live,
}

-- the index counts live entries only
seek-live :
    (index i : ℕ) (es : List Entry) → i ≤ index → seek index i es ≡ get_elem? (live es) (index - i)
unfolding seek live
seek-live index i [] h = refl
seek-live index i (e ∷ es) h = elim (Bool-cases (is_live e)) [
  | inr dead ↦ rw dead (seek-live index i es h)
  | inl lives ↦ rw lives (elim (Bool-cases (ltb i index)) [
    | inl before ↦
        rw (before, get_elem?-cons e (live es) (index - i) (ground arith))
          (seek-live index (i + 1) es (ground arith) ∙ ap (get_elem? (live es)) (omega arith))
    | inr here ↦ let same : index - i ≡ 0 = ground arith in rw (here, same)
  ])
]

sub-zero : (i : ℕ) → i - 0 ≡ i
sub-zero i = omega arith

-- an iterator that has returned `i` items
abbrev pub at : Kind → ℕ → MapIterator
at kind i = record { iterated = true; kind = kind; next_index = i }

next_some :
    (kind : Kind) (i : ℕ) (es : List Entry) (e : Entry)
    → get_elem? (live es) i ≡ some e
    → map_iterator_next (at kind i) es ≡ (at kind (i + 1), some (item_of kind e))
unfolding map_iterator_next
next_some kind i es e h = rw (seek-live i 0 es (omega arith), (sub-zero i), h)

next_none :
    (kind : Kind) (i : ℕ) (es : List Entry)
    → get_elem? (live es) i ≡ none
    → map_iterator_next (at kind i) es
      ≡ (record { iterated = false; kind = kind; next_index = i }, none)
unfolding map_iterator_next
next_none kind i es h = rw (seek-live i 0 es (omega arith), (sub-zero i), h)

drain-at :
    (n : ℕ) (kind : Kind) (i : ℕ) (es : List Entry)
    → length (live es) ≤ n + i
    → drain n (at kind i) es ≡ map (item_of kind) (drop i (live es))
unfolding drain
drain-at zero kind i es h = rw (drop-past i (live es) (omega arith))
drain-at (suc n) kind i es h = elim (Option-cases (get_elem? (live es) i)) [
  | inl end ↦ rw (next_none kind i es end, drop-get_none i (live es) end)
  | inr (e, found) ↦ rw (
    next_some kind i es e found,
    drop-get_some i (live es) e found,
    add-one i,
    drain-at n kind (suc i) es (omega arith),
  )
]

-- A new iterator over a map that nobody changes returns the live entries in insertion order, each
-- once, in the form of its kind, and then ends.
pub drain-map_iterator_new :
    (n : ℕ) (kind : Kind) (es : List Entry)
    → length (live es) ≤ n
    → drain n (map_iterator_new kind) es ≡ map (item_of kind) (live es)
unfolding map_iterator_new
drain-map_iterator_new n kind es h = drain-at n kind 0 es (omega arith)

seek-append :
    (index i : ℕ) (es : List Entry) (q e : Entry)
    → seek index i es ≡ some e
    → seek index i (es ++ q ∷ []) ≡ some e
unfolding seek
seek-append index i [] q e h = ground arith
seek-append index i (p ∷ ps) q e h =
    ground (arith, seek-append index (i + 1) ps q e, seek-append index i ps q e)

-- An entry that is added behind does not change what an iterator returns before its end.
map_iterator_next-append :
    (kind : Kind) (i : ℕ) (es : List Entry) (q : Entry) (x : Item)
    → (map_iterator_next (at kind i) es).1 ≡ some x
    → map_iterator_next (at kind i) (es ++ q ∷ []) ≡ map_iterator_next (at kind i) es
unfolding map_iterator_next
map_iterator_next-append kind i es q x h = elim (Option-cases (seek i 0 es)) [
  | inl end ↦ absurd (ended end h)
  | inr (e, found) ↦ rw (seek-append i 0 es q e found, found)
]
  where
    ended : seek i 0 es ≡ none → (map_iterator_next (at kind i) es).1 ≡ some x → ⊥
    ended end = ground arith

live-map_clear : (es : List Entry) → live (map_clear es) ≡ []
unfolding live map_clear is_live is_no_iter_value no_iter_value
live-map_clear [] = refl
live-map_clear (e ∷ es) = live-map_clear es

size-map_clear : (es : List Entry) → map_size (map_clear es) ≡ 0
unfolding map_size map_clear is_live is_no_iter_value no_iter_value
size-map_clear [] = refl
size-map_clear (e ∷ es) = size-map_clear es

get-map_clear :
    (mem : Memory) (es : List Entry) (k : ℕ) → map_get mem (map_clear es) k ≡ ok undefined_word
unfolding map_get map_clear matches is_live is_no_iter_value no_iter_value
get-map_clear mem [] k = refl
get-map_clear mem (e ∷ es) k = get-map_clear mem es k

length-map_clear : (es : List Entry) → length (map_clear es) ≡ length es
unfolding map_clear
length-map_clear [] = refl
length-map_clear (e ∷ es) = ap suc (length-map_clear es)

-- After Map.prototype.clear the size is 0, every key reads as undefined without a comparison, and
-- an iterator that was suspended anywhere has ended; the chain keeps its length.
map_clear_lem :
    (mem : Memory) (es : List Entry)
    → (map_size (map_clear es) ≡ 0)
      × ((k : ℕ) → map_get mem (map_clear es) k ≡ ok undefined_word)
      × ((kind : Kind) (i : ℕ) → (map_iterator_next (at kind i) (map_clear es)).1 ≡ none)
      × (length (map_clear es) ≡ length es)
map_clear_lem mem es = (
  size-map_clear es,
  get-map_clear mem es,
  λ kind i. rw (next_none kind i (map_clear es) (rw live-map_clear)),
  length-map_clear es,
)
