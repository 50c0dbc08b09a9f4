-- ===== src/Arrays/Sorting/Sorted.antt =====
-- sort of runtime/ejs-array.c ends, rearranges the elements, and leaves them in order.
use echo_js.Base.{ℕ, ◌≤◌, ◌<◌, ◌≡◌, Bool, true}
use echo_js.Arrays.{EjsArray}
use echo_js.Arrays.Sorting.Rearranging.{Rearranged}

module _ (before : ℕ → ℕ → Bool) where
  -- each word comes before every later one, or beside it
  abbrev pub InOrder : (ℕ → ℕ) → ℕ → ℕ → Type 0
  InOrder f low stop = (i j : ℕ) → low ≤ i → i < j → j < stop → before (f i) (f j) ≡ true

  record Ordered (a b : EjsArray) (low stop : ℕ) : Type 0 where
    is_dense : b.dense ≡ true
    same_alloc : b.array_alloc ≡ a.array_alloc
    same_length : b.array_length ≡ a.array_length
    order : Rearranged a.elements b.elements low stop
    in_order : InOrder b.elements low stop
