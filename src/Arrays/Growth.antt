-- ===== src/Arrays/Growth.antt =====
-- The growth of the buffer of an array, maybe_realloc_dense of runtime/ejs-array.c, and the moves.
use echo_js.Base.{ℕ, ◌+◌, ◌^◌, ◌≤◌, ◌<◌, ◌≡◌, true, ok, ltb, if◌then◌else◌, arith}
use echo_js.Arrays.{EjsArray, as_int, maybe_realloc_dense}
use echo_js.Arrays.Contents.{IsArray}

-- `b` is `a` with room for the index `h`.
pub record Grown (a b : EjsArray) (h : ℕ) : Type 0 where
  pub is_dense : b.dense ≡ true
  pub room : h < b.array_alloc
  pub same_length : b.array_length ≡ a.array_length
  pub still_within : b.array_length ≤ b.array_alloc
  pub kept : (i : ℕ) → i < a.array_length → b.elements i ≡ a.elements i

grown_array : (ℕ → ℕ) → EjsArray → ℕ → EjsArray
grown_array junk a h = if ltb h a.array_alloc then a else record a {
  array_alloc = h + 32;
  elements = λ i. if ltb i a.array_length then a.elements i else junk i;
}

module _ (junk : ℕ → ℕ) (a : EjsArray) (v : IsArray a) (h : ℕ) (fits : h + 32 < 2 ^ 31) where
  maybe_realloc_dense_lem : maybe_realloc_dense junk a h ≡ ok (grown_array junk a h)
  unfolding maybe_realloc_dense grown_array
  maybe_realloc_dense_lem = ground (arith, v.is_dense, v.within)

  grown_array-kept : (i : ℕ) → i < a.array_length → (grown_array junk a h).elements i ≡ a.elements i
  unfolding grown_array
  grown_array-kept i k = ground arith

  grown_array-Grown : Grown a (grown_array junk a h) h
  unfolding grown_array
  grown_array-Grown = record {
    is_dense = ground (arith, v.is_dense);
    room = ground arith;
    same_length = ground arith;
    still_within = ground (arith, v.within);
    kept = grown_array-kept;
  }

  pub maybe_realloc_dense-Grown :
      (b : EjsArray) × (maybe_realloc_dense junk a h ≡ ok b) × Grown a b h
  maybe_realloc_dense-Grown = (grown_array junk a h, maybe_realloc_dense_lem, grown_array-Grown)

pub as_int_lem : (n : ℕ) → n < 2 ^ 31 → as_int n ≡ ok n
unfolding as_int
as_int_lem n h = ground arith
