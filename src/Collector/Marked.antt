-- ===== src/Collector/Marked.antt =====
-- process_worklist of runtime/ejs-gc.c: it ends, and marks what can be reached, and the sweep
-- leaves that alone.
use mathlib.Core.Path.{subst}
use echo_js.Base.{
  ℕ, zero, suc, ◌<◌, ◌≡◌, ◌≢◌, refl, ap, sym, ◌∙◌, ◌⊎◌, inl, inr, List, [], ◌∷◌, Bool, true, false,
  Option, some, ◌==◌, if◌then◌else◌, if-cases, ==_iff, ==_false, arith,
}
use echo_js.PropertyMap.Chains.{count}
use echo_js.Collector.{
  WorkList, BitmapCell, gray_mask, GcThing, Marking, set_black, paint, worklist_pop, process_one,
  process_worklist, sweep_cell, sweep_heap,
}
use echo_js.Collector.Worklist.{addresses, Stacks, Popped, worklist_pop-Popped}
use echo_js.Collector.Phases.{gray_all-free}
use echo_js.Collector.Scanning.{scan_from-gray_all, references}
use echo_js.Collector.Graying.{color_of, remaining}
use echo_js.Collector.Blackening.{IsMarking, process_one-IsMarking}

List-cases : (xs : List ℕ) → (xs ≡ []) ⊎ ((x : ℕ) × (ys : List ℕ) × (xs ≡ x ∷ ys))
List-cases [] = inl refl
List-cases (x ∷ xs) = inr (x, xs, refl)

sweep_cell-kept :
    (white_mask : ℕ) (c : BitmapCell) → c.color ≢ white_mask → sweep_cell white_mask c ≡ c
unfolding sweep_cell
sweep_cell-kept white_mask c h = ground arith

-- The sweep changes no cell that is not white.
sweep_heap-kept :
    (white_mask q : ℕ) (cells : List ℕ) (cell : ℕ → BitmapCell)
    → (cell q).color ≢ white_mask
    → sweep_heap white_mask cells cell q ≡ cell q
unfolding sweep_heap
sweep_heap-kept white_mask q [] cell h = refl
sweep_heap-kept white_mask q (a ∷ rest) cell h =
    let swept = λ (b : ℕ). if b == a then sweep_cell white_mask (cell a) else cell b in
    let same : swept q ≡ cell q =
      if-cases (λ (c : BitmapCell). c ≡ cell q) (q == a)
        (λ e.
          ap (λ (b : ℕ). sweep_cell white_mask (cell b)) (sym ((==_iff q a).0 e))
          ∙ sweep_cell-kept white_mask (cell q) h)
        (λ e. refl) in
    sweep_heap-kept white_mask q rest swept
      (subst (λ (c : BitmapCell). c.color ≢ white_mask) (sym same) h)
    ∙ same

set_black-free :
    (in_heap : ℕ → Bool) (white_mask black_mask : ℕ) (cell : ℕ → BitmapCell) (p a : ℕ)
    → (set_black in_heap white_mask black_mask cell p a).is_free ≡ (cell a).is_free
unfolding set_black paint
set_black-free in_heap white_mask black_mask cell p a =
    if-cases (λ (c : ℕ → BitmapCell). (c a).is_free ≡ (cell a).is_free) (in_heap p)
      (λ i.
        if-cases (λ (b : BitmapCell). b.is_free ≡ (cell a).is_free) (a == p) (λ e. refl)
          (λ e. refl))
      (λ i. refl)

module _ (in_heap : ℕ → Bool) (white_mask black_mask : ℕ) (objs : List ℕ) (memory : ℕ → GcThing)
    (live : ℕ → Bool) where
  -- From `p` along references between live objects to `q`.
  abbrev pub Reaches : ℕ → List ℕ → ℕ → Type 0
  Reaches p [] q = p ≡ q
  Reaches p (r ∷ rs) q = (0 < count r (references (memory p))) × (live r ≡ true) × Reaches r rs q

  module _ (null_out : in_heap 0 ≡ false) (white_gray : white_mask ≢ 2)
      (black_gray : black_mask ≢ 2) (white_black : white_mask ≢ black_mask)
      (complete : (a : ℕ) → in_heap a ≡ true → 0 < count a objs)
      (live_in : (a : ℕ) → live a ≡ true → in_heap a ≡ true) where
    Invariant : Marking → Type 0
    Invariant = IsMarking in_heap white_mask black_mask objs memory live

    left : Marking → ℕ
    left = remaining in_heap white_mask black_mask objs

    -- The end of the loop from `m`.
    Ended : Marking → Option Marking → Type 0
    Ended m r =
        (m' : Marking) × (r ≡ some m')
        × Invariant m'
        × (addresses m'.work_list ≡ [])
        × ((a : ℕ) → in_heap a ≡ true → color_of m a ≢ white_mask → color_of m' a ≢ white_mask)
        × ((a : ℕ) → (m'.cell a).is_free ≡ (m.cell a).is_free)

    -- A round frees no cell.
    process_one-free :
        (p : ℕ) (m : Marking) (a : ℕ)
        → ((process_one in_heap white_mask black_mask memory p m).cell a).is_free
          ≡ (m.cell a).is_free
    unfolding process_one
    process_one-free p m a =
        let m' = record m { cell = set_black in_heap white_mask black_mask m.cell p } in
        ap (λ (r : Marking). (r.cell a).is_free)
          (scan_from-gray_all in_heap white_mask black_mask (memory p) m')
        ∙ gray_all-free in_heap white_mask black_mask objs null_out white_gray complete
            (references (memory p)) m' a
        ∙ set_black-free in_heap white_mask black_mask m.cell p a

    emptied-Ended :
        (m : Marking) (w : WorkList)
        → Invariant m
        → addresses m.work_list ≡ []
        → Stacks w []
        → Ended m (some (record m { work_list = w }))
    unfolding Ended Invariant color_of count
    emptied-Ended m w v e s = (
      record m { work_list = w },
      refl,
      record {
        listed = (
          s.0,
          λ (a : ℕ) (i : in_heap a ≡ true) (g : color_of m a ≡ gray_mask).
              absurd (omega (arith, v.listed.1 a i g, ap (count a) e)),
        );
        painted = v.painted;
        no_white_behind = v.no_white_behind;
      },
      s.1,
      λ a i h. h,
      λ a. refl,
    )

    process_worklist-Ended :
        (fuel : ℕ) (m : Marking)
        → Invariant m
        → left m < fuel
        → Ended m (process_worklist in_heap white_mask black_mask memory fuel m)
    unfolding process_worklist Popped left Invariant Ended
    process_worklist-Ended zero m v h = absurd (omega arith)
    process_worklist-Ended (suc fuel) m v h =
        let popped = worklist_pop m.work_list in
        let w = popped.1 in
        let next =
          process_one in_heap white_mask black_mask memory popped.0 (record m { work_list = w }) in
        let later = process_worklist in_heap white_mask black_mask memory fuel next in
        let top = worklist_pop-Popped m.work_list v.listed.0 in
        elim (List-cases (addresses m.work_list)) [
          | inl e ↦
              let t = subst (Popped popped) e top in
              subst (λ (b : Bool). Ended m (if b then some (record m { work_list = w }) else later))
                (sym ((==_iff popped.0 0).1 t.0)) (emptied-Ended m w v e t.1)
          | inr (x, xs, e) ↦
              let t = subst (Popped popped) e top in
              let round =
                process_one-IsMarking in_heap white_mask black_mask objs memory live null_out
                  white_gray black_gray white_black complete live_in m w popped.0 xs v
                  (e ∙ ap (◌∷ xs) (sym t.1)) t.2 in
              let r = process_worklist-Ended fuel next round.0 (omega (arith, round.2, h)) in
              subst (λ (b : Bool). Ended m (if b then some (record m { work_list = w }) else later))
                (sym (==_false popped.0 0 (λ (z : popped.0 ≡ 0). absurd (omega (arith, t.0, z)))))
                (
                  r.0,
                  r.1,
                  r.2,
                  r.3,
                  λ a i n. r.4 a i (round.1 a i n),
                  λ a. r.5 a ∙ process_one-free popped.0 (record m { work_list = w }) a,
                )
        ]

    module _ (m : Marking) (v : Invariant m) (empty : addresses m.work_list ≡ []) where
      all_black : (a : ℕ) → live a ≡ true → color_of m a ≢ white_mask → color_of m a ≡ black_mask
      unfolding Invariant count
      all_black a l h =
          ground
            (arith, v.painted a (live_in a l), v.listed.1 a (live_in a l), ap (count a) empty, h)

      reached_black :
          (p q : ℕ) (path : List ℕ)
          → live p ≡ true
          → color_of m p ≢ white_mask
          → Reaches p path q
          → color_of m q ≡ black_mask
      unfolding Invariant
      reached_black p q [] l h r = subst (λ (a : ℕ). color_of m a ≡ black_mask) r (all_black p l h)
      reached_black p q (a ∷ path) l h r =
          reached_black a q path r.1 (v.no_white_behind p a l (all_black p l h) r.0 (live_in a r.1))
            r.2

    -- Let the colours be different, NULL not in the heap, and `objs` a list of what is in the heap.
    -- From a marking whose worklist is one and holds every gray object, whose cells in the heap
    -- have one of the three colours, and in which no black live object refers to a white one in
    -- the heap, process_worklist ends with an empty worklist, on more fuel than there are white
    -- objects and addresses on the worklist. What can be reached from a live object that was not
    -- white, along references between live objects, is black then, and the sweep leaves its cell as
    -- it is.
    pub process_worklist-Marked :
        (m : Marking)
        → IsMarking in_heap white_mask black_mask objs memory live m
        → (fuel : ℕ) → remaining in_heap white_mask black_mask objs m < fuel
        → (p q : ℕ) (path : List ℕ) → live p ≡ true
        → (m.cell p).color ≢ white_mask
        → Reaches p path q
        → (cells : List ℕ)
        → (m' : Marking) × (process_worklist in_heap white_mask black_mask memory fuel m ≡ some m')
          × (addresses m'.work_list ≡ [])
          × ((m'.cell q).color ≡ black_mask)
          × ((m'.cell q).is_free ≡ (m.cell q).is_free)
          × (sweep_heap white_mask cells m'.cell q ≡ m'.cell q)
    unfolding Ended Invariant left color_of
    process_worklist-Marked m v fuel h p q path l n r cells =
        let e = process_worklist-Ended fuel m v h in
        let black = reached_black e.0 e.2 e.3 p q path l (e.4 p (live_in p l) n) r in
        (
          e.0,
          e.1,
          e.3,
          black,
          e.5 q,
          sweep_heap-kept white_mask q cells e.0.cell
              (λ (w : (e.0.cell q).color ≡ white_mask). white_black (sym w ∙ black)),
        )
