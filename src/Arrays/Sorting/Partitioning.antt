-- ===== src/Arrays/Sorting/Partitioning.antt =====
-- partition of runtime/ejs-array.c: what is smaller than the pivot comes before it, and the words
-- are only rearranged.
use echo_js.Base.{
  ℕ, zero, suc, ◌+◌, ◌-◌, ◌/◌, ◌≤◌, ◌<◌, ◌≡◌, refl, ◌∙◌, inl, inr, Bool, true, false, ok,
  Bool-cases, ◌==◌, arith,
}
use echo_js.Arrays.{EjsArray, load, swap_dense}
use echo_js.Arrays.Sorting.{partition_loop, partition}
use echo_js.Arrays.Sorting.Rearranging.{
  Rearranged, unmoved, Rearranged-trans, widened, Swapped, swap_dense-Swapped, Swapped-Rearranged,
  load_lem,
}

module _ (before : ℕ → ℕ → Bool) where
  -- The loop has put what comes before the pivot in front of `t`, and the rest behind it.
  record Parted (a b : EjsArray) (pivot low t high : ℕ) : Type 0 where
    is_dense : b.dense ≡ true
    same_alloc : b.array_alloc ≡ a.array_alloc
    same_length : b.array_length ≡ a.array_length
    lower : low ≤ t
    upper : t ≤ high
    at_end : b.elements high ≡ pivot
    smaller : (j : ℕ) → low ≤ j → j < t → before (b.elements j) pivot ≡ true
    larger : (j : ℕ) → t ≤ j → j < high → before (b.elements j) pivot ≡ false
    order : Rearranged a.elements b.elements low high

  -- What the loop knows between two rounds.
  record SoFar (a : EjsArray) (pivot low i s high : ℕ) : Type 0 where
    is_dense : a.dense ≡ true
    room : high < a.array_alloc
    lower : low ≤ s
    upper : s ≤ i
    at_end : a.elements high ≡ pivot
    smaller : (j : ℕ) → low ≤ j → j < s → before (a.elements j) pivot ≡ true
    larger : (j : ℕ) → s ≤ j → j < i → before (a.elements j) pivot ≡ false

  module _ (a b : EjsArray) (pivot low i s high : ℕ) (v : SoFar a pivot low i s high)
      (h : i < high) where
    passed : before (a.elements i) pivot ≡ false → SoFar a pivot low (suc i) s high
    passed e = record {
      is_dense = v.is_dense;
      room = v.room;
      lower = v.lower;
      upper = omega (arith, v.upper);
      at_end = v.at_end;
      smaller = v.smaller;
      larger = λ j p q. elim (Bool-cases (j == i)) [
        | inl here ↦ ground (arith, here, e)
        | inr before_it ↦ v.larger j p (ground (arith, before_it))
      ];
    }

    taken_over :
        before (a.elements i) pivot ≡ true
        → Swapped a b i s
        → SoFar b pivot low (suc i) (suc s) high
    taken_over e w = record {
      is_dense = w.is_dense;
      room = omega (arith, v.room, w.same_alloc);
      lower = omega (arith, v.lower);
      upper = omega (arith, v.upper);
      at_end = ground (arith, w.words high, v.at_end, v.upper);
      smaller = λ j p q. elim (Bool-cases (j == s)) [
        | inl here ↦ ground (arith, w.words j, here, e)
        | inr before_it ↦
            ground (arith, w.words j, before_it, v.upper, v.smaller j p (ground (arith, before_it)))
      ];
      larger = λ j p q. elim (Bool-cases (j == i)) [
        | inl here ↦ ground (arith, w.words j, here, v.larger s, v.upper)
        | inr before_it ↦ ground (arith, w.words j, before_it, v.larger j)
      ];
    }

  partition_loop-Parted :
      (a : EjsArray) (pivot low i s high n : ℕ)
      → i + n ≡ high
      → SoFar a pivot low i s high
      → (b : EjsArray) × (t : ℕ) × (partition_loop before a pivot i s n ≡ ok (b, t))
        × Parted a b pivot low t high
  unfolding partition_loop
  partition_loop-Parted a pivot low i s high zero e v =
      let same : i ≡ high = omega arith in
      (
        a,
        s,
        refl,
        record {
          is_dense = v.is_dense;
          same_alloc = refl;
          same_length = refl;
          lower = v.lower;
          upper = omega (arith, v.upper);
          at_end = v.at_end;
          smaller = v.smaller;
          larger = λ j p q. v.larger j p (omega arith);
          order = unmoved a.elements low high;
        },
      )
  partition_loop-Parted a pivot low i s high (suc n) e v =
      elim (Bool-cases (before (a.elements i) pivot)) [
        | inr no_less ↦
            let (b, t, r, p) =
              partition_loop-Parted a pivot low (suc i) s high n (omega arith)
                (passed a a pivot low i s high v (omega arith) no_less) in
            (b, t, rw (load_lem a i v.is_dense (omega (arith, v.room)), no_less) r, p)
        | inl less ↦
            let (c, r, w) =
              swap_dense-Swapped a i s v.is_dense (omega (arith, v.room))
                (omega (arith, v.room, v.upper)) in
            let (b, t, q, p) =
              partition_loop-Parted c pivot low (suc i) (suc s) high n (omega arith)
                (taken_over a c pivot low i s high v (omega arith) less w) in
            (
              b,
              t,
              rw (load_lem a i v.is_dense (omega (arith, v.room)), less, r) q,
              record {
                is_dense = p.is_dense;
                same_alloc = p.same_alloc ∙ w.same_alloc;
                same_length = p.same_length ∙ w.same_length;
                lower = p.lower;
                upper = p.upper;
                at_end = p.at_end;
                smaller = p.smaller;
                larger = p.larger;
                order =
                    Rearranged-trans a.elements c.elements b.elements low high
                      (Swapped-Rearranged a c i s low high w (omega (arith, v.lower, v.upper))
                        (omega arith) v.lower (omega (arith, v.upper)))
                      p.order;
              },
            )
      ]

  -- `b` is `a` with a pivot at `p` between the two parts.
  pub record Divided (a b : EjsArray) (low p stop : ℕ) : Type 0 where
    pub is_dense : b.dense ≡ true
    pub same_alloc : b.array_alloc ≡ a.array_alloc
    pub same_length : b.array_length ≡ a.array_length
    pub lower : low ≤ p
    pub upper : p < stop
    pub smaller : (j : ℕ) → low ≤ j → j < p → before (b.elements j) (b.elements p) ≡ true
    pub larger : (j : ℕ) → p < j → j < stop → before (b.elements j) (b.elements p) ≡ false
    pub order : Rearranged a.elements b.elements low stop

  start :
      (a c : EjsArray) (low high m : ℕ)
      → high < a.array_alloc
      → Swapped a c m high
      → SoFar c (a.elements m) low low low high
  start a c low high m h w = record {
    is_dense = w.is_dense;
    room = omega (arith, w.same_alloc);
    lower = omega arith;
    upper = omega arith;
    at_end = ground (arith, w.words high);
    smaller = λ j p q. absurd (omega arith);
    larger = λ j p q. absurd (omega arith);
  }

  finished :
      (a c d b : EjsArray) (low m t high : ℕ)
      → low ≤ m
      → m ≤ high
      → Swapped a c m high
      → Parted c d (a.elements m) low t high
      → Swapped d b t high
      → Divided a b low t (suc high)
  finished a c d b low m t high l h w p u =
      let pivot : b.elements t ≡ a.elements m = ground (arith, u.words t, p.at_end) in
      record {
        is_dense = u.is_dense;
        same_alloc = u.same_alloc ∙ p.same_alloc ∙ w.same_alloc;
        same_length = u.same_length ∙ p.same_length ∙ w.same_length;
        lower = p.lower;
        upper = omega (arith, p.upper);
        smaller = λ j x y. ground (arith, pivot, u.words j, p.smaller j x y, p.upper);
        larger = λ j x y. ground (arith, pivot, u.words j, p.larger j, p.larger t, p.upper);
        order =
            Rearranged-trans a.elements c.elements b.elements low (suc high)
              (Swapped-Rearranged a c m high low (suc high) w l (omega arith) (omega arith)
                (omega arith))
              (Rearranged-trans c.elements d.elements b.elements low (suc high)
                (widened c.elements d.elements low high low (suc high) (omega arith) (omega arith)
                  p.order)
                (Swapped-Rearranged d b t high low (suc high) u p.lower (omega (arith, p.upper))
                  (omega arith) (omega arith)));
      }

  partition_runs :
      (a c x b : EjsArray) (low high t pivot : ℕ)
      → load a (low + (high - low) / 2) ≡ ok pivot
      → swap_dense a (low + (high - low) / 2) high ≡ ok c
      → partition_loop before c pivot low low (high - low) ≡ ok (x, t)
      → swap_dense x t high ≡ ok b
      → partition before a low (suc high) ≡ ok (b, t)
  unfolding partition
  partition_runs a c x b low high t pivot l e f g =
      let last : suc high - 1 ≡ high = omega arith in rw (last, e, l, f, g) refl

  pub partition-Divided :
      (a : EjsArray) (low high : ℕ)
      → a.dense ≡ true
      → low ≤ high
      → high < a.array_alloc
      → (b : EjsArray) × (p : ℕ) × (partition before a low (suc high) ≡ ok (b, p))
        × Divided a b low p (suc high)
  partition-Divided a low high d h k =
      let m = low + (high - low) / 2 in
      let (c, e, w) = swap_dense-Swapped a m high d (omega arith) k in
      let (x, t, f, p) =
        partition_loop-Parted c (a.elements m) low low low high (high - low) (omega arith)
          (start a c low high m k w) in
      let (b, g, u) =
        swap_dense-Swapped x t high p.is_dense (omega (arith, p.upper, p.same_alloc, w.same_alloc))
          (omega (arith, p.same_alloc, w.same_alloc)) in
      (
        b,
        t,
        partition_runs a c x b low high t (a.elements m) (load_lem a m d (omega arith)) e f g,
        finished a c x b low m t high (omega arith) (omega arith) w p u,
      )
