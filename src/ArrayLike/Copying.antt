-- ===== src/ArrayLike/Copying.antt =====
-- The new array of splice of runtime/ejs-array.c, with the elements that are deleted from the object.
use echo_js.Base.{
  ℕ, zero, suc, ◌+◌, ◌-◌, ◌^◌, ◌≤◌, ◌<◌, ◌≡◌, refl, ◌∙◌, inl, inr, false, ◌&&◌, Option, none, some,
  Option-cases, Bool-cases, ok, aborted, ◌⊎◌, pos, ltb, leb, ◌==◌, if◌then◌else◌, arith,
}
use echo_js.Arrays.{EjsArray, array_new, sparse_array_cutoff, maybe_realloc_dense}
use echo_js.Arrays.Contents.{IsArray}
use echo_js.Arrays.Elements.{set_element, set_length}
use echo_js.Arrays.Elements.Slots.{slot, as_slot, set_element-slot}
use echo_js.Arrays.Elements.Lengths.{set_length-slot}
use echo_js.ArrayLike.{ArrayLike, taken}

-- the element that a new array gets: a hole in the object leaves what is there
abbrev pub or_else : Option ℕ → Option ℕ → Option ℕ
or_else none y = y
or_else (some v) y = some v

-- What the new array has behind one round of the loop and the later ones.
copied_further :
    (f before between after : ℕ → Option ℕ) (from k n j : ℕ)
    → between j ≡ (if j == k then or_else (f from) (before j) else before j)
    → after j ≡ (
        if leb (suc k) j && ltb j (suc k + n)
        then or_else (f (suc from + (j - suc k))) (between j)
        else between j)
    → after j
      ≡ (if leb k j && ltb j (k + suc n) then or_else (f (from + (j - k))) (before j) else before j)
copied_further f before between after from k n j e g = ground arith

-- the new array
module _ (junk : ℕ → ℕ) (count : ℕ) (few : count ≤ sparse_array_cutoff) where
  abbrev fresh : EjsArray
  fresh = array_new junk count false

  fresh-length : fresh.array_length ≡ count
  unfolding array_new
  fresh-length = ground (arith, few)

  fresh-IsArray : IsArray fresh
  unfolding array_new
  fresh-IsArray = record { is_dense = ground (arith, few); within = ground (arith, few) }

  fresh-slot : (j : ℕ) → j < count → slot fresh j ≡ as_slot (junk j)
  unfolding array_new
  fresh-slot j h = ground (arith, few)

module _ (L : ArrayLike) (junk : ℕ → ℕ) where
  open L use {
    Obj, length_of, has_property, get, item, IsValid, is_value, limit, has_property-item, get-item,
    value-no_hole, item-is_value, put_length-item,
  }

  -- `B` is `A` with other elements
  record Filled (A B : EjsArray) (now : ℕ → Option ℕ) : Type 0 where
    valid : IsArray B
    same_length : B.array_length ≡ A.array_length
    slots : (j : ℕ) → slot B j ≡ now j

  taken_one :
      (o : Obj) (A : EjsArray) (from k : ℕ)
      → IsValid o
      → from < length_of o
      → IsArray A
      → k < A.array_length
      → k + 32 < 2 ^ 31
      → (B : EjsArray) × ((if has_property o from
            then set_element junk A (pos k) (get o from)
            else ok A)
          ≡ ok B)
        × Filled A B (λ j. if j == k then or_else (item o from) (slot A j) else slot A j)
  taken_one o A from k w h v inside small = elim (Option-cases (item o from)) [
    | inl e ↦ (
      A,
      rw (has_property-item o from w h, e) refl,
      record { valid = v; same_length = refl; slots = λ j. ground (arith, e) },
    )
    | inr (x, e) ↦
        let (B, r, v', l, s) = set_element-slot junk A v k x small in
        let no_hole = value-no_hole x (item-is_value o from x w e) in
        (
          B,
          rw (has_property-item o from w h, get-item o from w, e) r,
          record {
            valid = v';
            same_length = ground (arith, l);
            slots = λ j. ground (arith, s j, e, no_hole);
          },
        )
  ]

  abbrev copied : Obj → EjsArray → ℕ → ℕ → ℕ → ℕ → Option ℕ
  copied o A from k n j =
      if leb k j && ltb j (k + n) then or_else (item o (from + (j - k))) (slot A j) else slot A j

  taken-Filled :
      (o : Obj) (A : EjsArray) (from k n : ℕ)
      → IsValid o
      → from + n ≤ length_of o
      → IsArray A
      → k + n ≤ A.array_length
      → A.array_length + 32 < 2 ^ 31
      → (B : EjsArray) × (taken L junk o A from k n ≡ ok B) × Filled A B (copied o A from k n)
  unfolding taken
  taken-Filled o A from k zero w h v inside small =
      (A, refl, record { valid = v; same_length = refl; slots = λ j. ground arith })
  taken-Filled o A from k (suc n) w h v inside small =
      let (B, e, b) = taken_one o A from k w (omega arith) v (omega arith) (omega arith) in
      let (C, f, c) =
        taken-Filled o B (suc from) (suc k) n w (omega arith) b.valid (omega (arith, b.same_length))
          (omega (arith, b.same_length)) in
      (
        C,
        rw (e) f,
        record {
          valid = c.valid;
          same_length = c.same_length ∙ b.same_length;
          slots = λ j.
              copied_further (item o) (slot A) (slot B) (slot C) from k n j (b.slots j) (c.slots j);
        },
      )

  -- the new array, with the deleted elements
  pub deleted_elements :
      (o : Obj) (start count : ℕ)
      → IsValid o
      → start + count ≤ length_of o
      → count ≤ sparse_array_cutoff
      → (A B : EjsArray) × (taken L junk o (array_new junk count false) start 0 count ≡ ok A)
        × (set_length junk A count ≡ ok B)
        × IsArray B
        × (B.array_length ≡ count)
        × ((j : ℕ) → j < count → slot B j ≡ or_else (item o (start + j)) (as_slot (junk j)))
  deleted_elements o start count w h few =
      let new = fresh junk count few in
      let l = fresh-length junk count few in
      let (A, e, a) =
        taken-Filled o new start 0 count w h (fresh-IsArray junk count few) (omega (arith, l))
          (omega (arith, l, few)) in
      let (B, f, v, m, s) = set_length-slot junk A a.valid count (omega (arith, few)) in
      (A, B, e, f, v, m, λ j k. ground (arith, s j, a.slots j, fresh-slot junk count few j k))

  set_element_sparse :
      (A : EjsArray) (k v : ℕ)
      → A.dense ≡ false
      → A.array_alloc ≡ 0
      → k < 2 ^ 31
      → set_element junk A (pos k) v ≡ aborted
  unfolding set_element maybe_realloc_dense
  set_element_sparse A k v d e h = ground (arith, d, e, h)

  -- Into a sparse array nothing is copied.
  pub taken_sparse :
      (o : Obj) (A : EjsArray) (from k n : ℕ)
      → A.dense ≡ false
      → A.array_alloc ≡ 0
      → k + n < 2 ^ 31
      → (taken L junk o A from k n ≡ ok A) ⊎ (taken L junk o A from k n ≡ aborted)
  unfolding taken
  taken_sparse o A from k zero d e h = inl refl
  taken_sparse o A from k (suc n) d e h = elim (Bool-cases (has_property o from)) [
    | inl t ↦ inr (rw (t, set_element_sparse A k (get o from) d e (omega arith)) refl)
    | inr t ↦ rw (t) (taken_sparse o A (suc from) (suc k) n d e (omega arith))
  ]
