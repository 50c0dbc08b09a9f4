-- ===== src/Tests/Sorting.antt =====
-- sort of runtime/ejs-array.c at a short concrete array.
use echo_js.Base.{
  ℕ, ◌+◌, ◌≡◌, refl, List, [], ◌∷◌, Bool, true, Option, some, Outcome, ok, ltb, leb, ◌==◌,
  if◌then◌else◌,
}
use echo_js.Ejsval.{is_undefined}
use echo_js.Objects.{undefined_word}
use echo_js.Arrays.{EjsArray, load, store, swap_dense, as_int}
use echo_js.Arrays.Contents.{contents}
use echo_js.Arrays.Sorting.{
  sorts_before, partition_loop, partition, array_quicksort_dense, array_sort,
}

-- an array of undefined, 9, 2, 7 and 2
abbrev mixed : EjsArray
mixed = record {
  dense = true;
  array_alloc = 8;
  elements = λ i. if i == 0 then undefined_word else if i == 1 then 9 else if i == 3 then 7 else 2;
  array_length = 5;
}

abbrev sorted_contents : Option (Outcome EjsArray) → List ℕ
sorted_contents (some (ok a)) = contents a
sorted_contents r = []

sort_test : sorted_contents (array_sort leb 6 mixed) ≡ 2 ∷ 2 ∷ 7 ∷ 9 ∷ undefined_word ∷ []
unfolding array_sort sorts_before array_quicksort_dense partition partition_loop as_int load store
    swap_dense is_undefined
sort_test = refl

-- The numbers are halves, and the comparison function is (a, b) => a - b: its answer on 3 and 2 is
-- 0.5, which is less than 1.
abbrev halves : ℕ → ℕ → Bool
halves x y = ltb x (y + 2)

abbrev two_halves : EjsArray
two_halves = record {
  dense = true;
  array_alloc = 8;
  elements = λ i. if i == 0 then 2 else 3;
  array_length = 2;
}

missorted_test : sorted_contents (array_sort halves 3 two_halves) ≡ 3 ∷ 2 ∷ []
unfolding array_sort sorts_before array_quicksort_dense partition partition_loop as_int load store
    swap_dense is_undefined
missorted_test = refl
