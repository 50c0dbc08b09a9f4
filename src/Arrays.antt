-- ===== src/Arrays.antt =====
-- The dense arrays of runtime/ejs-array.h and the functions of runtime/ejs-array.c that work on
-- their elements directly. The buffer is a function from indices to words, of which the first
-- `array_alloc` may be read and written; an access behind them, or to the elements of a sparse
-- array, is `aborted`. What malloc leaves in a new buffer is the argument `junk`.
pub mod Contents
pub mod Growth
pub mod Ends
pub mod Taking
pub mod Shifting
pub mod Elements
pub mod Sorting
use echo_js.Base.{
  ℕ, zero, suc, ◌+◌, ◌-◌, ◌%◌, ◌^◌, List, [], ◌∷◌, Bool, true, false, ◌&&◌, Outcome, ok, aborted,
  ◌>>=◌, ℤ, pos, negsuc, length, ltb, leb, ◌==◌, if◌then◌else◌,
}
use echo_js.Ejsval.{is_magic, to_int32, magic_to_ejsval}
use echo_js.Objects.{undefined_word, argument}

-- `dense` is false where `ops` is that of the sparse arrays
pub record EjsArray : Type 0 where
  pub dense : Bool
  pub array_alloc : ℕ
  pub elements : ℕ → ℕ
  pub array_length : ℕ

-- MAGIC_TO_EJSVAL_IMPL (EJS_ARRAY_HOLE)
unfoldable pub array_hole : ℕ
unfolding magic_to_ejsval
array_hole = magic_to_ejsval 0

-- EJSVAL_IS_ARRAY_HOLE_MAGIC
unfoldable pub is_array_hole : ℕ → Bool
unfolding is_magic to_int32
is_array_hole v = is_magic v && to_int32 v == 0

-- SPARSE_ARRAY_CUTOFF
abbrev pub sparse_array_cutoff : ℕ
sparse_array_cutoff = 50000

-- an int64 as an `int`; a negative one is then the size of a memmove, or an index
unfoldable pub as_int : ℕ → Outcome ℕ
as_int n = if ltb (n % 2 ^ 32) (2 ^ 31) then ok (n % 2 ^ 32) else aborted

-- EJS_DENSE_ARRAY_ELEMENTS (array)[i]
unfoldable pub load : EjsArray → ℕ → Outcome ℕ
load a i = if a.dense && ltb i a.array_alloc then ok (a.elements i) else aborted

-- EJS_DENSE_ARRAY_ELEMENTS (array)[i] = v
unfoldable pub store : EjsArray → ℕ → ℕ → Outcome EjsArray
store a i v =
    if a.dense && ltb i a.array_alloc
    then ok (record a { elements = λ j. if j == i then v else a.elements j })
    else aborted

-- memmove (elements + dst, from, n * sizeof (ejsval)), from words that may be read
unfoldable pub move_in : EjsArray → ℕ → (ℕ → ℕ) → ℕ → Outcome EjsArray
move_in a dst from n =
    if a.dense && leb (dst + n) a.array_alloc
    then ok (record a {
      elements = λ j. if leb dst j && ltb j (dst + n) then from (j - dst) else a.elements j;
    })
    else aborted

-- memmove (elements + dst, elements + src, n * sizeof (ejsval))
unfoldable pub move_within : EjsArray → ℕ → ℕ → ℕ → Outcome EjsArray
unfolding move_in
move_within a dst src n =
    if leb (src + n) a.array_alloc then move_in a dst (λ j. a.elements (src + j)) n else aborted

-- _ejs_array_new
unfoldable pub array_new : (ℕ → ℕ) → ℕ → Bool → EjsArray
array_new junk num_elements fill =
    if ltb sparse_array_cutoff num_elements
    then record { dense = false; array_alloc = 0; elements = junk; array_length = num_elements }
    else record {
      dense = true;
      array_alloc = num_elements + 5;
      elements = λ i. if fill && ltb i num_elements then array_hole else junk i;
      array_length = num_elements;
    }

-- maybe_realloc_dense; `high_index` is what the caller has as an int64, and a parameter of type int
unfoldable pub maybe_realloc_dense : (ℕ → ℕ) → EjsArray → ℕ → Outcome EjsArray
maybe_realloc_dense junk a high_index =
    let high = high_index % 2 ^ 32 in
    if ltb high (2 ^ 31) && leb a.array_alloc high
    then (if a.dense && leb a.array_length a.array_alloc && ltb (high + 32) (2 ^ 31)
        then ok (record a {
          array_alloc = high + 32;
          elements = λ i. if ltb i a.array_length then a.elements i else junk i;
        })
        else aborted)
    else ok a

-- _ejs_array_push_dense
unfoldable pub array_push_dense : (ℕ → ℕ) → EjsArray → List ℕ → Outcome (EjsArray × ℕ)
unfolding maybe_realloc_dense move_in
array_push_dense junk arr args = do
  a ← maybe_realloc_dense junk arr (arr.array_length + length args)
  b ← move_in a a.array_length (λ i. argument i args) (length args)
  let n = b.array_length + length args
  ok (record b { array_length = n }, n % 2 ^ 32)

-- _ejs_array_pop_dense
unfoldable pub array_pop_dense : EjsArray → Outcome (EjsArray × ℕ)
unfolding load
array_pop_dense arr =
    if arr.array_length == 0
    then ok (arr, undefined_word)
    else (load arr (arr.array_length - 1) >>= λ v.
        ok (record arr { array_length = arr.array_length - 1 }, v))

-- _ejs_array_new_copy
unfoldable pub array_new_copy : (ℕ → ℕ) → List ℕ → Outcome EjsArray
unfolding array_new array_push_dense
array_new_copy junk elements =
    array_push_dense junk (array_new junk 0 false) elements >>= λ r. ok (r.0)

-- swap_dense
unfoldable pub swap_dense : EjsArray → ℕ → ℕ → Outcome EjsArray
unfolding load store
swap_dense array x_pos y_pos = do
  tmp ← load array x_pos
  v ← load array y_pos
  a ← store array x_pos v
  store a y_pos tmp

-- the fast path of _ejs_Array_prototype_shift
unfoldable pub array_shift_dense : EjsArray → Outcome (EjsArray × ℕ)
unfolding as_int load move_within
array_shift_dense this = as_int this.array_length >>= λ len.
    if len == 0 then ok (this, undefined_word) else do
      first ← load this 0
      a ← move_within this 0 1 (len - 1)
      ok (record a { array_length = a.array_length - 1 }, first)

-- the fast path of _ejs_Array_prototype_unshift
unfoldable pub array_unshift_dense : (ℕ → ℕ) → EjsArray → List ℕ → Outcome (EjsArray × ℕ)
unfolding maybe_realloc_dense as_int move_within move_in
array_unshift_dense junk this args = do
  arr ← maybe_realloc_dense junk this (this.array_length + length args)
  len ← as_int arr.array_length
  a ← move_within arr (length args) 0 len
  b ← move_in a 0 (λ i. argument i args) (length args)
  ok (record b { array_length = b.array_length + length args }, len + length args)

-- MIN (i, len) of _ejs_array_slice_dense
abbrev pub min_int : ℤ → ℕ → ℤ
min_int (pos i) len = pos (if ltb i len then i else len)
min_int (negsuc i) len = negsuc i

-- what _ejs_array_slice_dense does with `begin` and `end`, for an array whose constructor is Array:
-- an index before the buffer is read unless nothing is, and a negative size is a huge one
unfoldable pub slice_between : (ℕ → ℕ) → EjsArray → ℤ → ℤ → Outcome EjsArray
unfolding array_new move_in
slice_between junk a (pos begin) (pos end) =
    if ltb end begin
    then aborted
    else if a.dense && leb end a.array_alloc
    then move_in (array_new junk (end - begin) false) 0 (λ j. a.elements (begin + j)) (end - begin)
    else aborted
slice_between junk a (negsuc begin) (negsuc end) =
    if begin == end then ok (array_new junk 0 false) else aborted
slice_between junk a (pos begin) (negsuc end) = aborted
slice_between junk a (negsuc begin) (pos end) = aborted

-- _ejs_array_slice_dense, on the arguments as `int`s
unfoldable pub array_slice_dense : (ℕ → ℕ) → EjsArray → List ℤ → Outcome EjsArray
unfolding as_int slice_between
array_slice_dense junk this [] =
    as_int this.array_length >>= λ len. slice_between junk this (pos 0) (pos len)
array_slice_dense junk this (begin ∷ []) =
    as_int this.array_length >>= λ len. slice_between junk this (min_int begin len) (pos len)
array_slice_dense junk this (begin ∷ end ∷ args) = as_int this.array_length >>= λ len.
    slice_between junk this (min_int begin len) (min_int end len)
