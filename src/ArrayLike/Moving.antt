-- ===== src/ArrayLike/Moving.antt =====
-- The loops of runtime/ejs-array.c that move the elements of an object up or down.
use echo_js.Base.{
  ℕ, zero, suc, ◌+◌, ◌-◌, ◌≤◌, ◌<◌, ◌≡◌, refl, ap, inl, inr, List, [], ◌∷◌, true, ◌&&◌, Option,
  none, some, Option-cases, ok, All, length, ltb, leb, ◌==◌, if◌then◌else◌, arith,
}
use echo_js.Objects.{argument}
use echo_js.ArrayLike.{ArrayLike, move_item, move_up, move_down, delete_down, put_items}

argument_behind :
    (x : ℕ) (items : List ℕ) (i : ℕ) → 0 < i → argument i (x ∷ items) ≡ argument (i - 1) items
argument_behind x items zero h = absurd (omega arith)
argument_behind x items (suc i) h = ap (λ (k : ℕ). argument k items) (omega arith)

module _ (L : ArrayLike) where
  open L use {
    Obj, length_of, has_property, get, put, delete_property_or_throw, item, IsValid, is_value,
    limit, has_property-item, get-item, item-is_value, put-item, delete-item,
  }

  -- `p` is a valid object whose elements are `now`, and which is not shorter than `o`.
  pub record Changed (o p : Obj) (now : ℕ → Option ℕ) : Type 0 where
    pub valid : IsValid p
    pub longer : length_of o ≤ length_of p
    pub items : (j : ℕ) → item p j ≡ now j

  pub put-Changed :
      (o : Obj) (i v : ℕ)
      → IsValid o
      → i < limit
      → is_value v ≡ true
      → (p : Obj) × (put o i v ≡ ok p) × Changed o p (λ j. if j == i then some v else item o j)
  put-Changed o i v w h s =
      let (p, e, w', l, items) = put-item o i v w h s in
      (p, e, record { valid = w'; longer = l; items = items })

  pub delete-Changed :
      (o : Obj) (i : ℕ)
      → IsValid o
      → (p : Obj) × (delete_property_or_throw o i ≡ ok p)
        × Changed o p (λ j. if j == i then none else item o j)
  delete-Changed o i w =
      let (p, e, w', l, items) = delete-item o i w in
      (p, e, record { valid = w'; longer = l; items = items })

  pub move_item-Changed :
      (o : Obj) (from to : ℕ)
      → IsValid o
      → from < length_of o
      → to < limit
      → (p : Obj) × (move_item L o from to ≡ ok p)
        × Changed o p (λ j. if j == to then item o from else item o j)
  unfolding move_item
  move_item-Changed o from to w h k = elim (Option-cases (item o from)) [
    | inl gone ↦
        let (p, e, c) = delete-Changed o to w in
        (
          p,
          rw (has_property-item o from w h, gone) e,
          record { valid = c.valid; longer = c.longer; items = λ j. rw gone (c.items j) },
        )
    | inr (v, there) ↦
        let (p, e, c) = put-Changed o to v w k (item-is_value o from v w there) in
        (
          p,
          rw (has_property-item o from w h, get-item o from w, there) e,
          record { valid = c.valid; longer = c.longer; items = λ j. rw there (c.items j) },
        )
  ]

  -- Moving up the list of elements, that is to lower indices.
  pub move_up-Changed :
      (o : Obj) (from to n : ℕ)
      → IsValid o
      → to ≤ from
      → from + n ≤ length_of o
      → from + n ≤ limit
      → (p : Obj) × (move_up L o from to n ≡ ok p)
        × Changed o p (λ j. if leb to j && ltb j (to + n) then item o (j - to + from) else item o j)
  unfolding move_up
  move_up-Changed o from to zero w d h k =
      (o, refl, record { valid = w; longer = omega arith; items = λ j. ground arith })
  move_up-Changed o from to (suc n) w d h k =
      let (p, e, c) = move_item-Changed o from to w (omega arith) (omega arith) in
      let (q, f, b) =
        move_up-Changed p (suc from) (suc to) n c.valid (omega arith) (omega (arith, c.longer))
          (omega arith) in
      (
        q,
        rw e f,
        record {
          valid = b.valid;
          longer = omega (arith, c.longer, b.longer);
          items = λ j. ground (arith, b.items j, c.items j, c.items (j - suc to + suc from));
        },
      )

  -- Moving down the list of elements, that is to higher indices.
  pub move_down-Changed :
      (o : Obj) (from to n : ℕ)
      → IsValid o
      → from ≤ to
      → from + n ≤ length_of o
      → to + n ≤ limit
      → (p : Obj) × (move_down L o from to n ≡ ok p)
        × Changed o p (λ j. if leb to j && ltb j (to + n) then item o (j - to + from) else item o j)
  unfolding move_down
  move_down-Changed o from to zero w d h k =
      (o, refl, record { valid = w; longer = omega arith; items = λ j. ground arith })
  move_down-Changed o from to (suc n) w d h k =
      let (p, e, c) = move_item-Changed o (from + n) (to + n) w (omega arith) (omega arith) in
      let (q, f, b) =
        move_down-Changed p from to n c.valid d (omega (arith, c.longer)) (omega arith) in
      (
        q,
        rw e f,
        record {
          valid = b.valid;
          longer = omega (arith, c.longer, b.longer);
          items = λ j. ground (arith, b.items j, c.items j, c.items (j - to + from));
        },
      )

  pub delete_down-Changed :
      (o : Obj) (from n : ℕ)
      → IsValid o
      → (p : Obj) × (delete_down L o from n ≡ ok p)
        × Changed o p (λ j. if leb from j && ltb j (from + n) then none else item o j)
  unfolding delete_down
  delete_down-Changed o from zero w =
      (o, refl, record { valid = w; longer = omega arith; items = λ j. ground arith })
  delete_down-Changed o from (suc n) w =
      let (p, e, c) = delete-Changed o (from + n) w in
      let (q, f, b) = delete_down-Changed p from n c.valid in
      (
        q,
        rw e f,
        record {
          valid = b.valid;
          longer = omega (arith, c.longer, b.longer);
          items = λ j. ground (arith, b.items j, c.items j);
        },
      )

  pub put_items-Changed :
      (o : Obj) (k : ℕ) (items : List ℕ)
      → IsValid o
      → All (λ v. is_value v ≡ true) items
      → k + length items ≤ limit
      → (p : Obj) × (put_items L o k items ≡ ok p)
        × Changed o p (λ j.
          if leb k j && ltb j (k + length items) then some (argument (j - k) items) else item o j)
  unfolding put_items
  put_items-Changed o k [] w s h =
      (o, refl, record { valid = w; longer = omega arith; items = λ j. ground arith })
  put_items-Changed o k (x ∷ items) w s h =
      let (p, e, c) = put-Changed o k x w (omega arith) s.0 in
      let (q, f, b) = put_items-Changed p (suc k) items c.valid s.1 (omega arith) in
      (
        q,
        rw e f,
        record {
          valid = b.valid;
          longer = omega (arith, c.longer, b.longer);
          items = λ j. ground (arith, b.items j, c.items j, argument_behind x items (j - k));
        },
      )
