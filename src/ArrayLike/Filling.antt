-- ===== src/ArrayLike/Filling.antt =====
-- fill and copyWithin of runtime/ejs-array.c on an object with indices.
use echo_js.Base.{
  ℕ, zero, suc, ◌+◌, ◌-◌, ◌^◌, ◌≤◌, ◌<◌, ◌≡◌, refl, true, ◌&&◌, some, Outcome, ok, aborted, ◌>>=◌,
  ℤ, pos, negsuc, leb, ltb, if◌then◌else◌, arith,
}
use echo_js.ArrayLike.{ArrayLike, move_item, sub_ℕ, wrapped, min_of, actual_start}
use echo_js.ArrayLike.Moving.{Changed, put-Changed}

module _ (L : ArrayLike) where
  open L use {Obj, length_of, put, item, IsValid, is_value, limit}

  -- the loop of fill, on the rounds that are left
  unfoldable pub fill_loop : Obj → ℕ → ℕ → ℕ → Outcome Obj
  fill_loop o value k zero = ok o
  fill_loop o value k (suc n) = put o k value >>= λ p. fill_loop p value (suc k) n

  -- fill from `k` to `final`; an index that is negative is not modelled
  unfoldable pub fill_between : Obj → ℕ → ℤ → ℤ → Outcome Obj
  unfolding fill_loop
  fill_between o value (pos k) (pos final) = fill_loop o value k (final - k)
  fill_between o value (pos k) (negsuc final) = ok o
  fill_between o value (negsuc k) final = aborted

  -- _ejs_Array_prototype_fill, on ToInteger of the second and the third argument
  unfoldable pub fill : Obj → ℕ → ℤ → ℤ → Outcome Obj
  unfolding actual_start fill_between
  fill o value relative_start relative_end =
      fill_between o value (actual_start (length_of o) relative_start)
        (actual_start (length_of o) relative_end)

  -- the loop of copyWithin with `direction` 1, and with `direction` -1: `to` is not moved by one,
  -- but doubled on the way; an index that is negative is not modelled
  unfoldable pub copy_up : Obj → ℕ → ℕ → ℕ → Outcome Obj
  unfolding move_item
  copy_up o from to zero = ok o
  copy_up o from to (suc count) =
      move_item L o from to >>= λ p. copy_up p (from + 1) (to + (to + 1)) count

  unfoldable pub copy_down : Obj → ℕ → ℕ → ℕ → Outcome Obj
  unfolding move_item
  copy_down o from to zero = ok o
  copy_down o from to (suc zero) = move_item L o from to
  copy_down o from zero (suc (suc count)) = aborted
  copy_down o from (suc to) (suc (suc count)) =
      move_item L o from (suc to) >>= λ p. copy_down p (from - 1) (suc to + to) (suc count)

  -- an int as a uint32_t
  abbrev as_unsigned : ℤ → ℕ
  as_unsigned (pos n) = n
  as_unsigned (negsuc n) = 2 ^ 32 - 1 - n

  -- steps 14 to 18 of copyWithin
  unfoldable pub copy_between : Obj → ℕ → ℕ → ℕ → Outcome Obj
  unfolding copy_up copy_down wrapped
  copy_between o to from final =
      let count =
        as_unsigned (min_of (wrapped (sub_ℕ final from)) (wrapped (sub_ℕ (length_of o) to))) in
      if ltb from to && ltb to (from + count)
      then copy_down o (from + count - 1) (to + count - 1) count
      else copy_up o from to count

  fill_loop-Changed :
      (o : Obj) (value k n : ℕ)
      → IsValid o
      → is_value value ≡ true
      → k + n ≤ limit
      → (p : Obj) × (fill_loop o value k n ≡ ok p)
        × Changed L o p (λ j. if leb k j && ltb j (k + n) then some value else item o j)
  unfolding fill_loop
  fill_loop-Changed o value k zero w s h =
      (o, refl, record { valid = w; longer = omega arith; items = λ j. ground arith })
  fill_loop-Changed o value k (suc n) w s h =
      let (p, e, c) = put-Changed L o k value w (omega arith) s in
      let (q, f, b) = fill_loop-Changed p value (suc k) n c.valid s (omega arith) in
      (
        q,
        rw e f,
        record {
          valid = b.valid;
          longer = omega (arith, c.longer, b.longer);
          items = λ j. ground (arith, b.items j, c.items j);
        },
      )

-- an index that may be counted from the end, held between 0 and the length
abbrev pub within_length : ℕ → ℤ → ℕ
within_length len (pos n) = if ltb len n then len else n
within_length len (negsuc n) = len - suc n

-- The integers of an `int`.
abbrev pub IsInt : ℤ → Type 0
IsInt (pos n) = n < 2 ^ 31
IsInt (negsuc n) = n < 2 ^ 31

actual_start_lem :
    (len : ℕ) (i : ℤ) → len < 2 ^ 31 → IsInt i → actual_start len i ≡ pos (within_length len i)
unfolding actual_start wrapped
actual_start_lem len (pos n) h k = ground arith
actual_start_lem len (negsuc n) h k = ground arith

within_length-le : (len : ℕ) (i : ℤ) → within_length len i ≤ len
within_length-le len (pos n) = ground arith
within_length-le len (negsuc n) = omega arith

-- fill on a valid object with fewer than 2 ^ 31 elements ends. From the start to the end, both held
-- within the length and counted from its end where they are negative, the object has the value, and
-- at the other indices what it had.
fill-Filled :
    (L : ArrayLike) (o : L.Obj) (value : ℕ) (start end : ℤ)
    → L.IsValid o
    → L.is_value value ≡ true
    → L.length_of o ≤ L.limit
    → L.length_of o < 2 ^ 31
    → IsInt start
    → IsInt end
    → (p : L.Obj) × (fill L o value start end ≡ ok p)
      × L.IsValid p
      × ((j : ℕ)
          → L.item p j ≡ (
              if leb (within_length (L.length_of o) start) j
                && ltb j (within_length (L.length_of o) end)
              then some value
              else L.item o j))
unfolding fill
fill-Filled L o value start end w s h small i k =
    let len = L.length_of o in
    let from = within_length len start in
    let to = within_length len end in
    let (p, e, c) =
      fill_loop-Changed L o value from (to - from) w s
        (omega (arith, within_length-le len start, within_length-le len end)) in
    (
      p,
      rw (actual_start_lem len start small i, actual_start_lem len end small k) e,
      c.valid,
      λ j. ground (arith, c.items j),
    )
