-- ===== src/Collector/Sources.antt =====
-- Where marking starts in runtime/ejs-gc.c: the registered roots, the modules, the registers and
-- the stack. The lists are the words that the loops visit.
use echo_js.Base.{ℕ, List, [], ◌∷◌, Bool, Option, none, some, ◌==◌, if◌then◌else◌}
use echo_js.Ejsval.{is_gcthing, to_pointer}
use echo_js.Collector.{
  BitmapCell, GcThing, Marking, worklist_push_and_gray, scan_ejsvalues, process_worklist,
  sweep_heap,
}

module _ (in_heap : ℕ → Bool) (white_mask black_mask : ℕ) where
  -- the body of the loop of mark_pointers_in_range; the macro has the test for white
  unfoldable pub mark_pointer : ℕ → Marking → Marking
  unfolding worklist_push_and_gray
  mark_pointer p m =
      if p == 0
      then m
      else if in_heap p
      then if (m.cell p).is_free
        then m
        else worklist_push_and_gray in_heap white_mask black_mask p m
      else m

  unfoldable pub mark_pointers_in_range : List ℕ → Marking → Marking
  unfolding mark_pointer
  mark_pointers_in_range [] m = m
  mark_pointers_in_range (p ∷ ps) m = mark_pointers_in_range ps (mark_pointer p m)

  -- the body of the loops of mark_from_roots and of mark_ejsvals_in_range
  unfoldable pub mark_value : ℕ → Marking → Marking
  unfolding mark_pointer is_gcthing to_pointer
  mark_value val m = if is_gcthing val then mark_pointer (to_pointer val) m else m

  -- mark_from_roots and mark_ejsvals_in_range
  unfoldable pub mark_values : List ℕ → Marking → Marking
  unfolding mark_value
  mark_values [] m = m
  mark_values (val ∷ vals) m = mark_values vals (mark_value val m)

  -- mark_from_modules, on the values that the Scan method of each module hands over
  unfoldable pub mark_from_modules : List (List ℕ) → Marking → Marking
  unfolding scan_ejsvalues
  mark_from_modules [] m = m
  mark_from_modules (vals ∷ rest) m =
      mark_from_modules rest (scan_ejsvalues in_heap white_mask black_mask vals m)

  -- the marking of _ejs_gc_collect_inner in front of process_worklist
  unfoldable pub mark_sources : List ℕ → List (List ℕ) → List ℕ → List ℕ → Marking → Marking
  unfolding mark_values mark_from_modules mark_pointers_in_range
  mark_sources roots modules registers stack m =
      mark_values stack
        (mark_pointers_in_range registers (mark_from_modules modules (mark_values roots m)))

  -- _ejs_gc_collect_inner: the cells after the sweep, `cells` in the order of its visits
  unfoldable pub collect_inner :
      (ℕ → GcThing)
      → ℕ
      → List ℕ
      → List (List ℕ)
      → List ℕ
      → List ℕ
      → List ℕ
      → Marking
      → Option (ℕ → BitmapCell)
  unfolding mark_sources process_worklist sweep_heap
  collect_inner memory fuel roots modules registers stack cells m =
      elim (process_worklist in_heap white_mask black_mask memory fuel
        (mark_sources roots modules registers stack m)) [
          | none ↦ none
          | some m' ↦ some (sweep_heap white_mask cells m'.cell)
        ]
