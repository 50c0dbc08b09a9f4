-- ===== src/Arrays/Elements/Lengths.antt =====
-- A write to the length of an array of runtime/ejs-array.c.
use echo_js.Base.{
  ℕ, ◌+◌, ◌-◌, ◌^◌, ◌≤◌, ◌<◌, ◌≡◌, refl, true, ◌&&◌, none, ok, inl, inr, if◌then◌else◌, ltb, leb,
  Bool-cases, arith,
}
use echo_js.Arrays.{EjsArray, array_hole, maybe_realloc_dense}
use echo_js.Arrays.Contents.{IsArray}
use echo_js.Arrays.Growth.{maybe_realloc_dense-Grown}
use echo_js.Arrays.Elements.{set_length}
use echo_js.Arrays.Elements.Slots.{slot, Rewritten, make_holes-Rewritten, hole_is_no_element}

-- `g` is `a` with room for `n` elements.
record HasRoom (a g : EjsArray) (n : ℕ) : Type 0 where
  is_dense : g.dense ≡ true
  room : n ≤ g.array_alloc
  same_length : g.array_length ≡ a.array_length
  still_within : g.array_length ≤ g.array_alloc
  kept : (i : ℕ) → i < a.array_length → g.elements i ≡ a.elements i

module _ (junk : ℕ → ℕ) (a : EjsArray) (v : IsArray a) (n : ℕ) (fits : n + 32 < 2 ^ 31) where
  room_for :
      (g : EjsArray) × ((if ltb a.array_alloc n then maybe_realloc_dense junk a n else ok a) ≡ ok g)
      × HasRoom a g n
  room_for = elim (Bool-cases (ltb a.array_alloc n)) [
    | inl more ↦
        let (g, e, w) = maybe_realloc_dense-Grown junk a v n fits in
        (
          g,
          rw more e,
          record {
            is_dense = w.is_dense;
            room = omega (arith, w.room);
            same_length = w.same_length;
            still_within = w.still_within;
            kept = w.kept;
          },
        )
    | inr enough ↦ (
      a,
      rw enough refl,
      record {
        is_dense = v.is_dense;
        room = ground (arith, enough);
        same_length = refl;
        still_within = v.within;
        kept = λ i h. refl;
      },
    )
  ]

  resized_slot :
      (g c : EjsArray)
      → HasRoom a g n
      → Rewritten g c (λ j.
        if leb g.array_length j && ltb j (g.array_length + (n - g.array_length))
        then array_hole
        else g.elements j)
      → (j : ℕ) → slot (record c { array_length = n }) j ≡ (if ltb j n then slot a j else none)
  resized_slot g c w r j = ground (arith, r.words j, w.kept j, w.same_length, hole_is_no_element)

  -- A new length below 2 ^ 31 - 32 is taken on: the array has what it had at the indices below it,
  -- and nothing at the others, whether they lie behind the new end or between the old and the new.
  pub set_length-slot :
      (b : EjsArray) × (set_length junk a n ≡ ok b)
      × IsArray b
      × (b.array_length ≡ n)
      × ((j : ℕ) → slot b j ≡ (if ltb j n then slot a j else none))
  unfolding set_length
  set_length-slot =
      let (g, e, w) = room_for in
      let guarded : (a.dense && ltb n (2 ^ 31)) ≡ true = ground (arith, v.is_dense) in
      let m = g.array_length in
      let (c, f, r) =
        make_holes-Rewritten g m (n - m) w.is_dense (omega (arith, w.room, w.still_within)) in
      (
        record c { array_length = n },
        rw (guarded, e, f) refl,
        record { is_dense = r.is_dense; within = omega (arith, w.room, r.same_alloc) },
        refl,
        resized_slot g c w r,
      )
