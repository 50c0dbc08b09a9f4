-- ===== src/Collector/Blackening.antt =====
-- One round of process_worklist of runtime/ejs-gc.c.
use mathlib.Core.Path.{subst}
use echo_js.Base.{
  ℕ, ◌+◌, ◌≤◌, ◌<◌, ◌≡◌, ◌≢◌, ap, sym, ◌⊎◌, inl, inr, List, [], ◌∷◌, Bool, true, false, length,
  ◌==◌, if◌then◌else◌, arith,
}
use echo_js.PropertyMap.Chains.{count}
use echo_js.Collector.{
  WorkList, BitmapCell, gray_mask, GcThing, Marking, is_white, set_black, process_one,
}
use echo_js.Collector.Worklist.{addresses, Stacks}
use echo_js.Collector.Scanning.{references, scan_from-gray_all}
use echo_js.Collector.Graying.{
  color_of, color-paint, whites, remaining, Listed, Grayed, gray_all-Grayed,
}

module _ (in_heap : ℕ → Bool) (white_mask black_mask : ℕ) (objs : List ℕ) (memory : ℕ → GcThing)
    (live : ℕ → Bool) where
  -- Every cell has one of the three colours; the gray objects are on the worklist; and a black
  -- live object refers to no white one in the heap.
  pub record IsMarking (m : Marking) : Type 0 where
    pub listed : Listed in_heap white_mask black_mask objs m
    pub painted :
        (a : ℕ)
        → in_heap a ≡ true
        → (color_of m a ≡ white_mask) ⊎ (color_of m a ≡ gray_mask) ⊎ (color_of m a ≡ black_mask)
    pub no_white_behind :
        (p q : ℕ)
        → live p ≡ true
        → color_of m p ≡ black_mask
        → 0 < count q (references (memory p))
        → in_heap q ≡ true
        → color_of m q ≢ white_mask

  module _ (null_out : in_heap 0 ≡ false) (white_gray : white_mask ≢ 2)
      (black_gray : black_mask ≢ 2) (white_black : white_mask ≢ black_mask)
      (complete : (a : ℕ) → in_heap a ≡ true → 0 < count a objs)
      (live_in : (a : ℕ) → live a ≡ true → in_heap a ≡ true) where
    whites-set_black :
        (cell : ℕ → BitmapCell) (p : ℕ) (as' : List ℕ)
        → whites in_heap white_mask black_mask objs
            (set_black in_heap white_mask black_mask cell p)
            as'
          ≤ whites in_heap white_mask black_mask objs cell as'
    unfolding whites is_white set_black
    whites-set_black cell p [] = omega arith
    whites-set_black cell p (a ∷ rest) =
        ground (arith, whites-set_black cell p rest, color-paint cell p black_mask a, white_black)

    module _ (m : Marking) (w : WorkList) (p : ℕ) (xs : List ℕ) (v : IsMarking m)
        (top : addresses m.work_list ≡ p ∷ xs) (rest : Stacks w xs) where
      -- after set_black
      blackened : Marking
      blackened = record { work_list = w; cell = set_black in_heap white_mask black_mask m.cell p }

      color-blackened :
          (a : ℕ)
          → in_heap a ≡ true
          → color_of blackened a ≡ (if a == p then black_mask else color_of m a)
      unfolding blackened set_black color_of
      color-blackened a i = ground (arith, i, color-paint m.cell p black_mask a)

      blackened-Listed : Listed in_heap white_mask black_mask objs blackened
      unfolding blackened count
      blackened-Listed = (
        rest.0,
        λ (a : ℕ) (i : in_heap a ≡ true) (g : color_of blackened a ≡ gray_mask). ground (
          arith,
          v.listed.1 a i,
          color-blackened a i,
          g,
          black_gray,
          ap (count a) top,
          ap (count a) rest.1,
        ),
      )

      blackened-remaining :
          remaining in_heap white_mask black_mask objs blackened + 1
          ≤ remaining in_heap white_mask black_mask objs m
      unfolding blackened
      blackened-remaining =
          omega (arith, whites-set_black m.cell p objs, ap length top, ap length rest.1)

      -- after the scan
      scanned : Marking
      scanned = process_one in_heap white_mask black_mask memory p (record m { work_list = w })

      scanned-Grayed :
          Grayed in_heap white_mask black_mask objs (references (memory p)) blackened scanned
      unfolding scanned process_one blackened
      scanned-Grayed =
          subst (Grayed in_heap white_mask black_mask objs (references (memory p)) blackened)
            (sym (scan_from-gray_all in_heap white_mask black_mask (memory p) blackened))
            (gray_all-Grayed in_heap white_mask black_mask objs null_out white_gray complete
              (references (memory p)) blackened blackened-Listed)

      -- A colour after the round, from the one before.
      scanned-color :
          (a : ℕ) → in_heap a ≡ true → color_of m a ≢ white_mask → color_of scanned a ≢ white_mask
      scanned-color a i h e =
          ground (arith, scanned-Grayed.1 a, color-blackened a i, h, e, white_gray, white_black)

      -- A black object was black before, or is the one that was popped.
      was_black :
          (a : ℕ)
          → in_heap a ≡ true
          → color_of scanned a ≡ black_mask
          → (a ≡ p) ⊎ (color_of m a ≡ black_mask)
      was_black a i e = ground (arith, scanned-Grayed.1 a, color-blackened a i, e, black_gray)

      scanned-painted :
          (a : ℕ)
          → in_heap a ≡ true
          → (color_of scanned a ≡ white_mask)
            ⊎ (color_of scanned a ≡ gray_mask)
            ⊎ (color_of scanned a ≡ black_mask)
      scanned-painted a i = ground (arith, scanned-Grayed.1 a, color-blackened a i, v.painted a i)

      scanned-behind :
          (r q : ℕ)
          → live r ≡ true
          → color_of scanned r ≡ black_mask
          → 0 < count q (references (memory r))
          → in_heap q ≡ true
          → color_of scanned q ≢ white_mask
      scanned-behind r q l b c i = elim (was_black r (live_in r l) b) [
        | inl same ↦
            scanned-Grayed.2 q (subst (λ (k : ℕ). 0 < count q (references (memory k))) same c) i
        | inr before ↦ scanned-color q i (v.no_white_behind r q l before c i)
      ]

      scanned-IsMarking : IsMarking scanned
      scanned-IsMarking = record {
        listed = scanned-Grayed.0;
        painted = scanned-painted;
        no_white_behind = scanned-behind;
      }

      -- A round keeps the invariant, and there is less left to do.
      pub process_one-IsMarking :
          IsMarking
            (process_one in_heap white_mask black_mask memory p (record m { work_list = w }))
          × ((a : ℕ)
              → in_heap a ≡ true
              → color_of m a ≢ white_mask
              → color_of
                  (process_one in_heap white_mask black_mask memory p (record m { work_list = w }))
                  a
                ≢ white_mask)
          × (remaining in_heap white_mask black_mask objs
                  (process_one in_heap white_mask black_mask memory p (record m { work_list = w }))
                + 1
              ≤ remaining in_heap white_mask black_mask objs m)
      unfolding scanned
      process_one-IsMarking =
          (scanned-IsMarking, scanned-color, omega (arith, scanned-Grayed.3, blackened-remaining))
