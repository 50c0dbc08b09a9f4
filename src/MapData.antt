-- ===== src/MapData.antt =====
-- runtime/ejs-map.c: `[[MapData]]`, the entries that a Map keeps in insertion order. The list is
-- the chain from `head_insert` along `next_insert`.
pub mod Lookup
pub mod Iterator
pub mod Iteration
pub mod Methods
use echo_js.Base.{
  ℕ, ◌+◌, List, [], ◌∷◌, ◌++◌, map, Bool, true, false, not, ◌&&◌, Option, none, some, Outcome, ok,
  type_error, aborted, ◌>>=◌, ◌>>◌, require, if◌then◌else◌,
}
use echo_js.Ejsval.{is_number, is_double, is_object, double_is_negzero, to_pointer}
use echo_js.Equality.{Memory, same_value_zero}
use echo_js.Objects.{
  Class, map_object, has_class, undefined_word, argument, no_iter_value, is_no_iter_value,
  bool_word,
}

-- EJSKeyValueEntry
pub record Entry : Type 0 where
  pub key : ℕ
  pub value : ℕ

-- `-0` is stored as `+0`
unfoldable pub normalise : ℕ → ℕ
unfolding is_double double_is_negzero
normalise key = if is_number key && double_is_negzero key then 0 else key

-- `!EJSVAL_IS_NO_ITER_VALUE_MAGIC (p->key)`
unfoldable pub is_live : Entry → Bool
unfolding is_no_iter_value
is_live p = not (is_no_iter_value p.key)

-- get Map.prototype.size
unfoldable pub map_size : List Entry → ℕ
unfolding is_live
map_size [] = 0
map_size (p ∷ ps) = let rest = map_size ps in if is_live p then rest + 1 else rest

abbrev pub emptied : Entry → Entry
emptied p = record { key = no_iter_value; value = no_iter_value }

-- the loop of Map.prototype.clear
unfoldable pub map_clear : List Entry → List Entry
map_clear = map emptied

-- _ejs_map_delete: the comments of steps 4 to 6 have no code, and the answer is always false
unfoldable pub map_delete : List Entry → ℕ → List Entry × Bool
map_delete es key = (es, false)

-- an entry that the loop passes over
abbrev pub keep : Entry → Outcome (Option (List Entry)) → Outcome (Option (List Entry))
keep p (ok (some qs)) = ok (some (p ∷ qs))
keep p r = r

module _ (mem : Memory) where
  -- the test of step 5.a
  unfoldable pub matches : Entry → ℕ → Outcome Bool
  unfolding is_live
  matches p key = if is_live p then same_value_zero mem p.key key else ok false

  -- _ejs_map_get
  unfoldable pub map_get : List Entry → ℕ → Outcome ℕ
  map_get [] key = ok undefined_word
  map_get (p ∷ ps) key = do hit ← matches p key; if hit then ok p.value else map_get ps key

  -- _ejs_map_has
  unfoldable pub map_has : List Entry → ℕ → Outcome Bool
  map_has [] key = ok false
  map_has (p ∷ ps) key = do hit ← matches p key; if hit then ok true else map_has ps key

  -- the loop of _ejs_map_set: the entries with `value` written over, if the key is found
  unfoldable pub overwrite : List Entry → ℕ → ℕ → Outcome (Option (List Entry))
  overwrite [] key value = ok none
  overwrite (p ∷ ps) key value = do
    hit ← matches p key
    if hit then ok (some (record p { value = value } ∷ ps)) else keep p (overwrite ps key value)

  -- _ejs_map_set
  unfoldable pub map_set : List Entry → ℕ → ℕ → Outcome (List Entry)
  map_set es key value = do
    found ← overwrite es key value
    elim found [
      | some written ↦ ok written
      | none ↦ ok (es ++ record { key = normalise key; value = value } ∷ [])
    ]
