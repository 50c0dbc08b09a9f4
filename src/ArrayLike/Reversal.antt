-- ===== src/ArrayLike/Reversal.antt =====
-- reverse of runtime/ejs-array.c turns the elements round, the holes with them.
use echo_js.Base.{
  ℕ, zero, suc, ◌+◌, ◌-◌, ◌/◌, ◌%◌, ◌^◌, ◌≤◌, ◌<◌, ◌≡◌, refl, ◌∙◌, inl, inr, Bool, true, false,
  ◌&&◌, Option, none, some, Option-cases, ok, ltb, leb, ◌==◌, if◌then◌else◌, arith,
}
use echo_js.ArrayLike.{ArrayLike, exchange, reverse_loop, reverse}
use echo_js.ArrayLike.Moving.{Changed, put-Changed, delete-Changed}

-- What the elements are after an exchange and the later rounds.
turned_round :
    (before between after : ℕ → Option ℕ) (len lower n j : ℕ)
    → lower + suc n ≡ len / 2
    → between j ≡ (
        if j == lower
        then before (len - lower - 1)
        else if j == len - lower - 1
        then before lower
        else before j)
    → between (len - 1 - j) ≡ (
        if len - 1 - j == lower
        then before (len - lower - 1)
        else if len - 1 - j == len - lower - 1
        then before lower
        else before (len - 1 - j))
    → after j ≡ (
        if leb (lower + 1) j && ltb j (len - (lower + 1)) then between (len - 1 - j) else between j)
    → after j ≡ (if leb lower j && ltb j (len - lower) then before (len - 1 - j) else before j)
turned_round before between after len lower n j e f g h = ground arith

module _ (L : ArrayLike) where
  open L use {
    Obj, length_of, has_property, get, item, IsValid, is_value, limit, has_property-item, get-item,
    item-is_value,
  }

  abbrev exchanged : Obj → ℕ → ℕ → ℕ → Option ℕ
  exchanged o lower upper j =
      if j == lower then item o upper else if j == upper then item o lower else item o j

  module _ (o : Obj) (lower upper : ℕ) (w : IsValid o) (d : lower < upper) (h : upper < length_of o)
      (k : upper < limit) where
    abbrev Exchanges : Bool → Bool → Type 0
    Exchanges b c =
        (p : Obj) × (exchange L o lower upper b c ≡ ok p) × Changed L o p (exchanged o lower upper)

    both : (v u : ℕ) → item o lower ≡ some v → item o upper ≡ some u → Exchanges true true
    unfolding exchange
    both v u e f =
        let (p, r, c) = put-Changed L o lower u w (omega arith) (item-is_value o upper u w f) in
        let (q, s, b) = put-Changed L p upper v c.valid k (item-is_value o lower v w e) in
        (
          q,
          rw (get-item o upper w, get-item o lower w, e, f, r) s,
          record {
            valid = b.valid;
            longer = omega (arith, c.longer, b.longer);
            items = λ j. ground (arith, b.items j, c.items j);
          },
        )

    only_upper : (u : ℕ) → item o lower ≡ none → item o upper ≡ some u → Exchanges false true
    unfolding exchange
    only_upper u e f =
        let (p, r, c) = put-Changed L o lower u w (omega arith) (item-is_value o upper u w f) in
        let (q, s, b) = delete-Changed L p upper c.valid in
        (
          q,
          rw (get-item o upper w, f, r) s,
          record {
            valid = b.valid;
            longer = omega (arith, c.longer, b.longer);
            items = λ j. ground (arith, b.items j, c.items j);
          },
        )

    only_lower : (v : ℕ) → item o lower ≡ some v → item o upper ≡ none → Exchanges true false
    unfolding exchange
    only_lower v e f =
        let (p, r, c) = delete-Changed L o lower w in
        let (q, s, b) = put-Changed L p upper v c.valid k (item-is_value o lower v w e) in
        (
          q,
          rw (get-item o lower w, e, r) s,
          record {
            valid = b.valid;
            longer = omega (arith, c.longer, b.longer);
            items = λ j. ground (arith, b.items j, c.items j);
          },
        )

    neither : item o lower ≡ none → item o upper ≡ none → Exchanges false false
    unfolding exchange
    neither e f =
        (o, refl, record { valid = w; longer = omega arith; items = λ j. ground (arith, e, f) })

    exchange-Changed : Exchanges (has_property o lower) (has_property o upper)
    exchange-Changed =
        rw (has_property-item o lower w (omega arith), has_property-item o upper w h)
          (elim (Option-cases (item o lower)) [
            | inl e ↦ elim (Option-cases (item o upper)) [
              | inl f ↦ rw (e, f) (neither e f)
              | inr (u, f) ↦ rw (e, f) (only_upper u e f)
            ]
            | inr (v, e) ↦ elim (Option-cases (item o upper)) [
              | inl f ↦ rw (e, f) (only_lower v e f)
              | inr (u, f) ↦ rw (e, f) (both v u e f)
            ]
          ])

  one_round :
      (o p : Obj) (len lower n upper : ℕ)
      → (len - lower - 1) % 2 ^ 32 ≡ upper
      → exchange L o lower upper (has_property o lower) (has_property o upper) ≡ ok p
      → reverse_loop L o len lower (suc n) ≡ reverse_loop L p len (lower + 1) n
  unfolding reverse_loop
  one_round o p len lower n upper e r = rw (e, r) refl

  reverse_loop-Changed :
      (o : Obj) (len lower n : ℕ)
      → IsValid o
      → len ≤ length_of o
      → len ≤ limit
      → len < 2 ^ 32
      → lower + n ≡ len / 2
      → (p : Obj) × (reverse_loop L o len lower n ≡ ok p)
        × Changed L o p
            (λ j. if leb lower j && ltb j (len - lower) then item o (len - 1 - j) else item o j)
  unfolding reverse_loop
  reverse_loop-Changed o len lower zero w h k small e =
      (o, refl, record { valid = w; longer = omega arith; items = λ j. ground arith })
  reverse_loop-Changed o len lower (suc n) w h k small e =
      let upper = len - lower - 1 in
      let no_wrap : (len - lower - 1) % 2 ^ 32 ≡ upper = omega arith in
      let (p, r, c) = exchange-Changed o lower upper w (omega arith) (omega arith) (omega arith) in
      let (q, s, b) =
        reverse_loop-Changed p len (lower + 1) n c.valid (omega (arith, c.longer)) k small
          (omega arith) in
      (
        q,
        one_round o p len lower n upper no_wrap r ∙ s,
        record {
          valid = b.valid;
          longer = omega (arith, c.longer, b.longer);
          items = λ j.
              turned_round (item o) (item p) (item q) len lower n j e (c.items j)
                (c.items (len - 1 - j)) (b.items j);
        },
      )

-- reverse ends on every valid object with fewer than 2 ^ 32 elements whose length is at most the
-- limit of its indices, which for a dense array is 2 ^ 31 - 32. Afterwards the object has at each
-- index below the length what it had at the same distance from the other end, a value or nothing,
-- and it is valid and not shorter.
pub reverse-Reversed :
    (L : ArrayLike) (o : L.Obj)
    → L.IsValid o
    → L.length_of o ≤ L.limit
    → L.length_of o < 2 ^ 32
    → (p : L.Obj) × (reverse L o ≡ ok p)
      × L.IsValid p
      × (L.length_of o ≤ L.length_of p)
      × ((j : ℕ) → j < L.length_of o → L.item p j ≡ L.item o (L.length_of o - 1 - j))
unfolding reverse
reverse-Reversed L o w h small =
    let len = L.length_of o in
    let (p, r, c) =
      reverse_loop-Changed L o len 0 (len / 2) w (omega arith) h small (omega arith) in
    (p, r, c.valid, c.longer, λ j k. ground (arith, c.items j))
