-- ===== src/ArrayLike.antt =====
-- The functions of Array.prototype in runtime/ejs-array.c that reach the elements through Get, Put,
-- HasProperty and DeletePropertyOrThrow, for any object with such methods whose getters, setters and
-- traps do not run JavaScript. An index is a number, which ToString made a name of.
pub mod Moving
pub mod Reversal
pub mod Copying
pub mod Splicing
pub mod Searching
pub mod Filling
pub mod Dense
use echo_js.Base.{
  ℕ, zero, suc, ◌+◌, ◌-◌, ◌/◌, ◌%◌, ◌^◌, ◌≤◌, ◌<◌, ◌≡◌, List, [], ◌∷◌, Bool, true, false, Option,
  none, some, Outcome, ok, type_error, ◌>>=◌, ℤ, pos, negsuc, length, ltb, leb, ◌==◌, if◌then◌else◌,
}
use echo_js.Arrays.{EjsArray, is_array_hole, array_new}
use echo_js.Arrays.Elements.{set_element, set_length}
use echo_js.Arrays.Elements.Slots.{or_undefined, is_there}

-- The methods of the object, and what it has at each index.
pub record ArrayLike : Type 1 where
  pub Obj : Type 0
  pub length_of : Obj → ℕ
  pub has_property : Obj → ℕ → Bool
  pub get : Obj → ℕ → ℕ
  pub put : Obj → ℕ → ℕ → Outcome Obj
  pub delete_property_or_throw : Obj → ℕ → Outcome Obj
  pub put_length : Obj → ℕ → Outcome Obj
  pub item : Obj → ℕ → Option ℕ
  pub IsValid : Obj → Type 0
  -- whether the word is a value of the language
  pub is_value : ℕ → Bool
  -- no index and no length from here on is written
  pub limit : ℕ
  pub has_property-item :
      (o : Obj) (i : ℕ) → IsValid o → i < length_of o → has_property o i ≡ is_there (item o i)
  pub get-item : (o : Obj) (i : ℕ) → IsValid o → get o i ≡ or_undefined (item o i)
  pub value-no_hole : (v : ℕ) → is_value v ≡ true → is_array_hole v ≡ false
  pub item-is_value : (o : Obj) (i v : ℕ) → IsValid o → item o i ≡ some v → is_value v ≡ true
  pub item_behind : (o : Obj) (i : ℕ) → IsValid o → length_of o ≤ i → item o i ≡ none
  pub put-item :
      (o : Obj) (i v : ℕ)
      → IsValid o
      → i < limit
      → is_value v ≡ true
      → (p : Obj) × (put o i v ≡ ok p)
        × IsValid p
        × (length_of o ≤ length_of p)
        × ((j : ℕ) → item p j ≡ (if j == i then some v else item o j))
  pub delete-item :
      (o : Obj) (i : ℕ)
      → IsValid o
      → (p : Obj) × (delete_property_or_throw o i ≡ ok p)
        × IsValid p
        × (length_of o ≤ length_of p)
        × ((j : ℕ) → item p j ≡ (if j == i then none else item o j))
  pub put_length-item :
      (o : Obj) (n : ℕ)
      → IsValid o
      → n < limit
      → (p : Obj) × (put_length o n ≡ ok p)
        × IsValid p
        × (length_of p ≡ n)
        × ((j : ℕ) → item p j ≡ (if ltb j n then item o j else none))

-- EJS_MAX_SAFE_INTEGER
abbrev pub max_safe_integer : ℕ
max_safe_integer = 2 ^ 53 - 1

module _ (L : ArrayLike) where
  open L use {Obj, length_of, has_property, get, put, delete_property_or_throw, put_length}

  -- steps d to l of the loop of reverse
  unfoldable pub exchange : Obj → ℕ → ℕ → Bool → Bool → Outcome Obj
  exchange o lower upper true true =
      let lower_value = get o lower in
      let upper_value = get o upper in put o lower upper_value >>= λ p. put p upper lower_value
  exchange o lower upper false true =
      let upper_value = get o upper in
      put o lower upper_value >>= λ p. delete_property_or_throw p upper
  exchange o lower upper true false =
      let lower_value = get o lower in
      delete_property_or_throw o lower >>= λ p. put p upper lower_value
  exchange o lower upper false false = ok o

  -- the loop of reverse, `upper` being a uint32_t, on the rounds that are left
  unfoldable pub reverse_loop : Obj → ℕ → ℕ → ℕ → Outcome Obj
  unfolding exchange
  reverse_loop o len lower zero = ok o
  reverse_loop o len lower (suc n) =
      let upper = (len - lower - 1) % 2 ^ 32 in
      exchange o lower upper (has_property o lower) (has_property o upper) >>= λ p.
      reverse_loop p len (lower + 1) n

  -- _ejs_Array_prototype_reverse
  unfoldable pub reverse : Obj → Outcome Obj
  unfolding reverse_loop
  reverse o = reverse_loop o (length_of o) 0 (length_of o / 2)

  -- the move of one element, in the loops of splice
  unfoldable pub move_item : Obj → ℕ → ℕ → Outcome Obj
  move_item o from to =
      if has_property o from then put o to (get o from) else delete_property_or_throw o to

  -- `n` rounds of such a loop that counts up, and of one that counts down
  unfoldable pub move_up : Obj → ℕ → ℕ → ℕ → Outcome Obj
  unfolding move_item
  move_up o from to zero = ok o
  move_up o from to (suc n) = move_item o from to >>= λ p. move_up p (suc from) (suc to) n

  unfoldable pub move_down : Obj → ℕ → ℕ → ℕ → Outcome Obj
  unfolding move_item
  move_down o from to zero = ok o
  move_down o from to (suc n) = move_item o (from + n) (to + n) >>= λ p. move_down p from to n

  -- the loop of splice that deletes from the end, from `from + n - 1` down to `from`
  unfoldable pub delete_down : Obj → ℕ → ℕ → Outcome Obj
  delete_down o from zero = ok o
  delete_down o from (suc n) = delete_property_or_throw o (from + n) >>= λ p. delete_down p from n

  -- the loops that put the arguments in
  unfoldable pub put_items : Obj → ℕ → List ℕ → Outcome Obj
  put_items o k [] = ok o
  put_items o k (e ∷ items) = put o k e >>= λ p. put_items p (suc k) items

  -- the loop of splice that copies into the new array: `n` elements from `from` on, to the indices
  -- from `k` on, where the object has one
  unfoldable pub taken : (ℕ → ℕ) → Obj → EjsArray → ℕ → ℕ → ℕ → Outcome EjsArray
  taken junk o A from k zero = ok A
  taken junk o A from k (suc n) =
      (if has_property o from then set_element junk A (pos k) (get o from) else ok A) >>= λ B.
      taken junk o B (suc from) (suc k) n

  -- _ejs_Array_prototype_splice from step 11 on, where `start` is actualStart, `count`
  -- actualDeleteCount, the constructor of an array is Array, and `junk` what malloc leaves in the
  -- buffer of the new array
  unfoldable pub splice_at : (ℕ → ℕ) → Obj → ℕ → ℕ → List ℕ → Outcome (Obj × EjsArray)
  unfolding taken move_up move_down delete_down put_items
  splice_at junk o start count items =
      let len = length_of o in
      let n = length items in
      if ltb max_safe_integer (len + n - count) then type_error else do
        A ← taken junk o (array_new junk count false) start 0 count
        B ← set_length junk A count
        p ←
            (if ltb n count
              then (move_up o (start + count) (start + n) (len - count - start) >>= λ p.
                  delete_down p (len - count + n) (count - n))
              else move_down o (start + count) (start + n) (len - count - start))
        q ← put_items p start items
        r ← put_length q (len - count + n)
        ok (r, B)

-- a - b, as an integer
abbrev pub sub_ℕ : ℕ → ℕ → ℤ
sub_ℕ a b = if leb b a then pos (a - b) else negsuc (b - a - 1)

-- an int64 as the `int` that the functions max and min take
unfoldable pub wrapped : ℤ → ℤ
wrapped (pos n) = let w = n % 2 ^ 32 in if ltb w (2 ^ 31) then pos w else negsuc (2 ^ 32 - 1 - w)
wrapped (negsuc n) = let w = n % 2 ^ 32 in if ltb w (2 ^ 31) then negsuc w else pos (2 ^ 32 - 1 - w)

-- max (i, 0)
abbrev pub max_zero : ℤ → ℕ
max_zero (pos n) = n
max_zero (negsuc n) = 0

-- min of ejs-array.c
abbrev pub min_of : ℤ → ℤ → ℤ
min_of (pos a) (pos b) = pos (if ltb b a then b else a)
min_of (pos a) (negsuc b) = negsuc b
min_of (negsuc a) (pos b) = negsuc a
min_of (negsuc a) (negsuc b) = negsuc (if ltb a b then b else a)

-- actualStart of splice
unfoldable pub actual_start : ℕ → ℤ → ℤ
unfolding wrapped
actual_start len (negsuc n) = pos (max_zero (wrapped (sub_ℕ len (suc n))))
actual_start len (pos n) = min_of (wrapped (pos n)) (wrapped (pos len))

-- actualDeleteCount of splice, with two arguments or more, from an actualStart up to the length
unfoldable pub actual_delete_count : ℕ → ℕ → ℤ → ℤ
unfolding wrapped
actual_delete_count len start dc = min_of (pos (max_zero (wrapped dc))) (wrapped (sub_ℕ len start))
