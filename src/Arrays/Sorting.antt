-- ===== src/Arrays/Sorting.antt =====
-- sort on a dense array, runtime/ejs-array.c. What the comparison function answers on two values is
-- the argument `below_one`: whether it is a number less than 1, which it is, too, where it is NaN.
pub mod Rearranging
pub mod Partitioning
pub mod Sorted
use echo_js.Base.{
  ℕ, zero, suc, ◌+◌, ◌-◌, ◌/◌, Bool, true, false, Option, none, some, Outcome, ok, type_error,
  aborted, ◌>>=◌, leb, if◌then◌else◌,
}
use echo_js.Ejsval.{is_undefined}
use echo_js.Arrays.{EjsArray, load, swap_dense, as_int}

-- `_ejs_op_lt (SortCompare (comparefn, x, y), one)`
unfoldable pub sorts_before : (ℕ → ℕ → Bool) → ℕ → ℕ → Bool
unfolding is_undefined
sorts_before below_one x y =
    if is_undefined x then is_undefined y else if is_undefined y then true else below_one x y

-- the loop of partition, from `i` on, on the rounds that are left: the array and `storeIndex`
unfoldable pub partition_loop : (ℕ → ℕ → Bool) → EjsArray → ℕ → ℕ → ℕ → ℕ → Outcome (EjsArray × ℕ)
unfolding load swap_dense
partition_loop before a pivot_value i store_index zero = ok (a, store_index)
partition_loop before a pivot_value i store_index (suc n) = load a i >>= λ k_value.
    elim (before k_value pivot_value) [
      | true ↦ swap_dense a i store_index >>= λ b.
          partition_loop before b pivot_value (suc i) (suc store_index) n
      | false ↦ partition_loop before a pivot_value (suc i) store_index n
    ]

-- partition; `stop` is `high + 1`, since `high` may be -1 in the calls of quicksort
unfoldable pub partition : (ℕ → ℕ → Bool) → EjsArray → ℕ → ℕ → Outcome (EjsArray × ℕ)
unfolding load swap_dense partition_loop
partition before array low stop = do
  let high = stop - 1
  let pivot_index = low + (high - low) / 2
  pivot_value ← load array pivot_index
  a ← swap_dense array pivot_index high
  r ← partition_loop before a pivot_value low low (high - low)
  b ← swap_dense (r.0) (r.1) high
  ok (b, r.1)

-- the next step of a run on fuel that may fail
abbrev pub and_then {ℓ} :
    {A B : Type ℓ} → Option (Outcome A) → (A → Option (Outcome B)) → Option (Outcome B)
and_then none f = none
and_then (some (ok a)) f = f a
and_then (some type_error) f = some type_error
and_then (some aborted) f = some aborted

-- _ejs_array_quicksort_dense, on fuel; `none` is a run that the fuel ended
unfoldable pub array_quicksort_dense :
    (ℕ → ℕ → Bool) → ℕ → EjsArray → ℕ → ℕ → Option (Outcome EjsArray)
unfolding partition
array_quicksort_dense before zero array low stop = none
array_quicksort_dense before (suc fuel) array low stop = elim (leb stop (low + 1)) [
  | true ↦ some (ok array)
  | false ↦ and_then (some (partition before array low stop)) (λ r.
      and_then (array_quicksort_dense before fuel (r.0) low (r.1))
        (λ b. array_quicksort_dense before fuel b (suc (r.1)) stop))
]

-- the dense case of _ejs_Array_prototype_sort
unfoldable pub array_sort : (ℕ → ℕ → Bool) → ℕ → EjsArray → Option (Outcome EjsArray)
unfolding as_int sorts_before array_quicksort_dense
array_sort below_one fuel obj =
    and_then (some (as_int obj.array_length))
      (λ len. array_quicksort_dense (sorts_before below_one) fuel obj 0 len)
