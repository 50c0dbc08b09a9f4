-- ===== src/SetData.antt =====
-- runtime/ejs-set.c: `[[SetData]]`, the values that a Set keeps in insertion order. The list is the
-- chain from `head_insert` along `next_insert`.
pub mod Membership
pub mod Iterator
pub mod Iteration
use echo_js.Base.{
  ℕ, ◌+◌, List, [], ◌∷◌, ◌++◌, map, Bool, true, false, not, ◌&&◌, Option, none, some, Outcome, ok,
  type_error, aborted, ◌>>=◌, if◌then◌else◌,
}
use echo_js.Equality.{Memory, same_value_zero}
use echo_js.Objects.{no_iter_value, is_no_iter_value}
use echo_js.MapData.{normalise}

-- an empty element holds EJS_NO_ITER_VALUE
unfoldable pub is_live : ℕ → Bool
unfolding is_no_iter_value
is_live e = not (is_no_iter_value e)

-- get Set.prototype.size
unfoldable pub set_size : List ℕ → ℕ
unfolding is_live
set_size [] = 0
set_size (e ∷ es) = let rest = set_size es in if is_live e then rest + 1 else rest

abbrev pub emptied : ℕ → ℕ
emptied e = no_iter_value

-- the loop of Set.prototype.clear
unfoldable pub set_clear : List ℕ → List ℕ
set_clear = map emptied

-- an element that a loop of _ejs_set_delete passes over
abbrev pub keep : ℕ → Outcome (List ℕ × Bool) → Outcome (List ℕ × Bool)
keep e (ok (es, found)) = ok (e ∷ es, found)
keep e type_error = type_error
keep e aborted = aborted

module _ (mem : Memory) where
  -- _ejs_set_delete; the comparison is made with empty elements too
  unfoldable pub set_delete : List ℕ → ℕ → Outcome (List ℕ × Bool)
  set_delete [] value = ok ([], false)
  set_delete (e ∷ es) value = do
    hit ← same_value_zero mem e value
    if hit then ok (no_iter_value ∷ es, true) else keep e (set_delete es value)

  -- _ejs_set_has
  unfoldable pub set_has : List ℕ → ℕ → Outcome Bool
  set_has [] value = ok false
  set_has (e ∷ es) value = do
    hit ← same_value_zero mem e value
    if hit then ok true else set_has es value

  -- _ejs_set_add: the loop is that of _ejs_set_has
  unfoldable pub set_add : List ℕ → ℕ → Outcome (List ℕ)
  unfolding set_has
  set_add es value = do
    present ← set_has es value
    if present then ok es else ok (es ++ normalise value ∷ [])
