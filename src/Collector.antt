-- ===== src/Collector.antt =====
-- A collection of runtime/ejs-gc.c: the worklist in segments, the colours of the cells, the loop
-- that empties the worklist, and the sweep; Collector.Sources has where the marking starts. The
-- bitmap cell of an object is the one that find_page_and_cell gives for its address, and `in_heap`
-- whether it gives one.
pub mod Worklist
pub mod Scanning
pub mod Graying
pub mod Blackening
pub mod Marked
pub mod Sources
pub mod Phases
pub mod Rooted
pub mod Collection
use echo_js.Base.{
  ℕ, zero, suc, ◌+◌, List, [], ◌∷◌, Bool, true, false, ◌&&◌, Option, none, some, length, ◌==◌,
  if◌then◌else◌,
}
use echo_js.Ejsval.{is_traceable, to_pointer}

-- MAX_WORKLIST_SEGMENT_SIZE
abbrev pub max_worklist_segment_size : ℕ
max_worklist_segment_size = 512

-- WorkList: the segments along `next`, each the addresses of its `work_list` from the last one
-- down, so that its `size` is its length.
pub record WorkList : Type 0 where
  pub segments : List (List ℕ)
  pub free_list : List (List ℕ)

-- a new segment, from the free list or from malloc
abbrev pub with_segment : ℕ → WorkList → WorkList
with_segment obj w = elim w.free_list [
  | [] ↦ record w { segments = (obj ∷ []) ∷ w.segments }
  | segment ∷ rest ↦ record { segments = (obj ∷ segment) ∷ w.segments; free_list = rest }
]

-- _ejs_gc_worklist_push
unfoldable pub worklist_push : ℕ → WorkList → WorkList
worklist_push obj w = if obj == 0 then w else elim w.segments [
  | [] ↦ with_segment obj w
  | segment ∷ rest ↦
      if length segment == max_worklist_segment_size
      then with_segment obj w
      else record w { segments = (obj ∷ segment) ∷ rest }
]

-- the rest of a segment, which is put on the free list when it is empty
abbrev pub put_back : List ℕ → List (List ℕ) → WorkList → WorkList
put_back [] rest w = record { segments = rest; free_list = [] ∷ w.free_list }
put_back (x ∷ xs) rest w = record w { segments = (x ∷ xs) ∷ rest }

-- _ejs_gc_worklist_pop; 0 is NULL
unfoldable pub worklist_pop : WorkList → ℕ × WorkList
worklist_pop w = elim w.segments [
  | [] ↦ (0, w)
  | segment ∷ rest ↦ elim segment [ [] ↦ (0, w) | obj ∷ objs ↦ (obj, put_back objs rest w) ]
]

-- BitmapCell: the bits of CELL_COLOR_MASK, and CELL_FREE
pub record BitmapCell : Type 0 where
  pub color : ℕ
  pub is_free : Bool

-- CELL_GRAY_MASK
abbrev pub gray_mask : ℕ
gray_mask = 2

-- What a collectable cell holds that the collector reads, by its EJSScanType: the values that the
-- Scan method of an object hands over, a primitive string by its form, the description of a symbol,
-- and the slots of an environment.
pub data GcThing : Type 0 where
  object : List ℕ → GcThing
  primstr_rope : ℕ → ℕ → GcThing
  primstr_dependent : ℕ → GcThing
  primstr_flat : GcThing
  primsym : ℕ → GcThing
  closureenv : List ℕ → GcThing

-- What marking changes.
pub record Marking : Type 0 where
  pub cell : ℕ → BitmapCell
  pub work_list : WorkList

-- a write of the colour of one cell
unfoldable pub paint : ℕ → ℕ → (ℕ → BitmapCell) → ℕ → BitmapCell
paint ptr c cell a = if a == ptr then record (cell a) { color = c } else cell a

module _ (in_heap : ℕ → Bool) (white_mask black_mask : ℕ) where
  -- is_white
  unfoldable pub is_white : (ℕ → BitmapCell) → ℕ → Bool
  is_white cell ptr = in_heap ptr && (cell ptr).color == white_mask

  -- set_gray
  unfoldable pub set_gray : (ℕ → BitmapCell) → ℕ → ℕ → BitmapCell
  unfolding paint
  set_gray cell ptr = if in_heap ptr then paint ptr gray_mask cell else cell

  -- set_black
  unfoldable pub set_black : (ℕ → BitmapCell) → ℕ → ℕ → BitmapCell
  unfolding paint
  set_black cell ptr = if in_heap ptr then paint ptr black_mask cell else cell

  -- WORKLIST_PUSH_AND_GRAY
  unfoldable pub worklist_push_and_gray : ℕ → Marking → Marking
  unfolding is_white set_gray worklist_push
  worklist_push_and_gray x m =
      if is_white m.cell x
      then record { work_list = worklist_push x m.work_list; cell = set_gray m.cell x }
      else m

  -- _scan_ejsvalue
  unfoldable pub scan_ejsvalue : ℕ → Marking → Marking
  unfolding worklist_push_and_gray is_traceable to_pointer
  scan_ejsvalue val m =
      if is_traceable val
      then (if to_pointer val == 0 then m else worklist_push_and_gray (to_pointer val) m)
      else m

  -- the loop over the slots of an environment, and the calls that a Scan method makes
  unfoldable pub scan_ejsvalues : List ℕ → Marking → Marking
  unfolding scan_ejsvalue
  scan_ejsvalues [] m = m
  scan_ejsvalues (val ∷ vals) m = scan_ejsvalues vals (scan_ejsvalue val m)

  -- _scan_from_ejsobject, _scan_from_ejsprimstr, _scan_from_ejsprimsym, _scan_from_ejsclosureenv
  unfoldable pub scan_from : GcThing → Marking → Marking
  unfolding scan_ejsvalue scan_ejsvalues worklist_push_and_gray
  scan_from (object vals) m = scan_ejsvalues vals m
  scan_from (primstr_rope left right) m =
      worklist_push_and_gray right (worklist_push_and_gray left m)
  scan_from (primstr_dependent dep) m = worklist_push_and_gray dep m
  scan_from primstr_flat m = m
  scan_from (primsym description) m = scan_ejsvalue description m
  scan_from (closureenv slots) m = scan_ejsvalues slots m

  module _ (memory : ℕ → GcThing) where
    -- the body of the loop of process_worklist
    unfoldable pub process_one : ℕ → Marking → Marking
    unfolding set_black scan_from
    process_one p m = scan_from (memory p) (record m { cell = set_black m.cell p })

    -- process_worklist
    unfoldable pub process_worklist : ℕ → Marking → Option Marking
    unfolding worklist_pop process_one
    process_worklist zero m = none
    process_worklist (suc fuel) m =
        let popped = worklist_pop m.work_list in
        let later =
          process_worklist fuel (process_one popped.0 (record m { work_list = popped.1 })) in
        if popped.0 == 0 then some (record m { work_list = popped.1 }) else later

-- what sweep_heap and _ejs_finalize_obj make of one bitmap cell
unfoldable pub sweep_cell : ℕ → BitmapCell → BitmapCell
sweep_cell white_mask c =
    if c.is_free
    then c
    else if c.color == white_mask
    then record { color = 0; is_free = true }
    else c

-- sweep_heap, on the cells that it visits one after the other
unfoldable pub sweep_heap : ℕ → List ℕ → (ℕ → BitmapCell) → ℕ → BitmapCell
unfolding sweep_cell
sweep_heap white_mask [] cell = cell
sweep_heap white_mask (a ∷ rest) cell =
    sweep_heap white_mask rest (λ b. if b == a then sweep_cell white_mask (cell a) else cell b)
