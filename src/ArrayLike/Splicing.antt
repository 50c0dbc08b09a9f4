-- ===== src/ArrayLike/Splicing.antt =====
-- splice of runtime/ejs-array.c, by what the object and the new array have at each index afterwards.
use echo_js.Base.{
  ℕ, ◌+◌, ◌-◌, ◌^◌, ◌≤◌, ◌<◌, ◌≡◌, refl, inl, inr, List, true, false, ◌&&◌, Option, none, some,
  Bool-cases, ok, aborted, ◌>>=◌, All, length, ltb, leb, if◌then◌else◌, arith,
}
use echo_js.Objects.{argument}
use echo_js.Arrays.{EjsArray, array_new, sparse_array_cutoff}
use echo_js.Arrays.Contents.{IsArray}
use echo_js.Arrays.Elements.{set_length}
use echo_js.Arrays.Elements.Slots.{slot, as_slot}
use echo_js.ArrayLike.{ArrayLike, move_up, move_down, delete_down, splice_at, max_safe_integer}
use echo_js.ArrayLike.Copying.{or_else, deleted_elements, taken_sparse}
use echo_js.ArrayLike.Moving.{
  move_up-Changed, move_down-Changed, delete_down-Changed, put_items-Changed,
}

module _ (L : ArrayLike) where
  open L use {Obj, length_of, item, IsValid, limit}

  module _ (o : Obj) (start count n : ℕ) (w : IsValid o) (h : start + count ≤ length_of o)
      (fits : length_of o + n < limit) where
    abbrev len : ℕ
    len = length_of o

    -- the tail stands where it belongs, and what is before the start has not changed
    record TailMoved (p : Obj) : Type 0 where
      valid : IsValid p
      tail : (j : ℕ) → start + n ≤ j → j < len - count + n → item p j ≡ item o (j - n + count)
      front : (j : ℕ) → j < start → item p j ≡ item o j

    closing_up :
        n < count
        → (p : Obj) × ((move_up L o (start + count) (start + n) (len - count - start) >>= λ p.
              delete_down L p (len - count + n) (count - n))
            ≡ ok p)
          × TailMoved p
    closing_up d =
        let (p, e, c) =
          move_up-Changed L o (start + count) (start + n) (len - count - start) w (omega arith)
            (omega arith) (omega arith) in
        let (q, f, b) = delete_down-Changed L p (len - count + n) (count - n) c.valid in
        (
          q,
          rw e f,
          record {
            valid = b.valid;
            tail = λ j x y. ground (arith, b.items j, c.items j);
            front = λ j x. ground (arith, b.items j, c.items j);
          },
        )

    making_room :
        count ≤ n
        → (p : Obj) × (move_down L o (start + count) (start + n) (len - count - start) ≡ ok p)
          × TailMoved p
    making_room d =
        let (p, e, c) =
          move_down-Changed L o (start + count) (start + n) (len - count - start) w (omega arith)
            (omega arith) (omega arith) in
        (
          p,
          e,
          record {
            valid = c.valid;
            tail = λ j x y. ground (arith, c.items j);
            front = λ j x. ground (arith, c.items j);
          },
        )

    tail_moved :
        (p : Obj) × ((if ltb n count
            then (move_up L o (start + count) (start + n) (len - count - start) >>= λ p.
                delete_down L p (len - count + n) (count - n))
            else move_down L o (start + count) (start + n) (len - count - start))
          ≡ ok p)
        × TailMoved p
    tail_moved = elim (Bool-cases (ltb n count)) [
      | inl less ↦ rw less (closing_up (ground (arith, less)))
      | inr more ↦ rw more (making_room (ground (arith, more)))
    ]

-- What the elements are behind the steps of splice.
spliced_items :
    (before moved put now : ℕ → Option ℕ) (items : List ℕ) (len start count j : ℕ)
    → start + count ≤ len
    → (start + length items ≤ j
        → j < len - count + length items
        → moved j ≡ before (j - length items + count))
    → (j < start → moved j ≡ before j)
    → put j ≡ (
        if leb start j && ltb j (start + length items)
        then some (argument (j - start) items)
        else moved j)
    → now j ≡ (if ltb j (len - count + length items) then put j else none)
    → now j ≡ (
        if ltb j start
        then before j
        else if ltb j (start + length items)
        then some (argument (j - start) items)
        else if ltb j (len - count + length items)
        then before (j - length items + count)
        else none)
spliced_items before moved put now items len start count j h tail front e f =
    ground (arith, tail, front)

-- splice on a valid object whose length and the number of the arguments together stay below the limit
-- of its indices, which for a dense array is 2 ^ 31 - 32, and are at most 2 ^ 53 - 1, for arguments
-- that are values, actualStart and actualDeleteCount within the length, and at most 50000 deleted
-- elements: it ends. The new array has
-- as many elements as are deleted, at each index the deleted one, or, where the object had none,
-- what the memory of the new buffer happens to hold. The object has the arguments at the start,
-- before them what it had, behind them what it had behind the deleted indices, and the length that
-- belongs to that.
pub splice_at-Spliced :
    (L : ArrayLike) (junk : ℕ → ℕ) (o : L.Obj) (start count : ℕ) (items : List ℕ)
    → L.IsValid o
    → start + count ≤ L.length_of o
    → count ≤ sparse_array_cutoff
    → L.length_of o + length items < L.limit
    → L.length_of o + length items ≤ max_safe_integer
    → All (λ v. L.is_value v ≡ true) items
    → (p : L.Obj) × (B : EjsArray) × (splice_at L junk o start count items ≡ ok (p, B))
      × IsArray B
      × (B.array_length ≡ count)
      × ((j : ℕ) → j < count → slot B j ≡ or_else (L.item o (start + j)) (as_slot (junk j)))
      × L.IsValid p
      × (L.length_of p ≡ L.length_of o - count + length items)
      × ((j : ℕ)
          → L.item p j ≡ (
              if ltb j start
              then L.item o j
              else if ltb j (start + length items)
              then some (argument (j - start) items)
              else if ltb j (L.length_of o - count + length items)
              then L.item o (j - length items + count)
              else none))
unfolding splice_at
splice_at-Spliced L junk o start count items w h few fits safe values =
    let n = length items in
    let not_too_long : ltb max_safe_integer (L.length_of o + n - count) ≡ false = ground arith in
    let (A, B, x, y, v, m, kept) = deleted_elements L junk o start count w h few in
    let (p, e, t) = tail_moved L o start count n w h fits in
    let (q, f, c) = put_items-Changed L p start items t.valid values (omega arith) in
    let (r, g, w', l, b) = L.put_length-item q (L.length_of o - count + n) c.valid (omega arith) in
    (
      r,
      B,
      rw (not_too_long, x, y, e, f, g) refl,
      v,
      m,
      kept,
      w',
      l,
      λ j.
          spliced_items (L.item o) (L.item p) (L.item q) (L.item r) items (L.length_of o) start
            count j h (t.tail j) (t.front j) (c.items j) (b j),
    )

-- Deleting more than 50000 elements aborts: the new array is sparse, and takes neither an element
-- nor a length.
splice_at_aborts :
    (L : ArrayLike) (junk : ℕ → ℕ) (o : L.Obj) (start count : ℕ) (items : List ℕ)
    → sparse_array_cutoff < count
    → count < 2 ^ 31
    → L.length_of o + length items ≤ max_safe_integer
    → splice_at L junk o start count items ≡ aborted
unfolding splice_at set_length
splice_at_aborts L junk o start count items many small safe =
    let not_too_long : ltb max_safe_integer (L.length_of o + length items - count) ≡ false =
      ground arith in
    let new = array_new junk count false in
    let is_sparse : new.dense ≡ false = unfold array_new in ground (arith, many) in
    let no_buffer : new.array_alloc ≡ 0 = unfold array_new in ground (arith, many) in
    elim (taken_sparse L junk o new start 0 count is_sparse no_buffer (omega arith)) [
      | inl e ↦ rw (not_too_long, e, is_sparse) refl
      | inr e ↦ rw (not_too_long, e) refl
    ]
