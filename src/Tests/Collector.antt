-- ===== src/Tests/Collector.antt =====
-- A collection of runtime/ejs-gc.c on a heap of three strings.
use echo_js.Base.{
  ℕ, ◌<◌, ◌≡◌, ◌≢◌, inl, refl, List, [], ◌∷◌, Bool, true, false, ◌||◌, Option, none, some, ◌==◌,
  if◌then◌else◌, arith,
}
use echo_js.PropertyMap.Chains.{count}
use echo_js.Collector.{
  WorkList, BitmapCell, GcThing, primstr_dependent, primstr_flat, Marking, worklist_push,
  worklist_pop, paint, is_white, set_gray, set_black, worklist_push_and_gray, scan_from,
  process_one, process_worklist, sweep_cell, sweep_heap,
}
use echo_js.Collector.Worklist.{addresses, IsWorkList, worklist_pop-push}
use echo_js.Collector.Graying.{whites}
use echo_js.Ejsval.{is_gcthing, to_pointer}
use echo_js.Ejsval.View.{string, encode}
use echo_js.Collector.Sources.{
  mark_pointer, mark_value, mark_values, mark_from_modules, mark_pointers_in_range, mark_sources,
  collect_inner,
}
use echo_js.Collector.Collection.{IsIdle, collect_inner-Kept}

abbrev two : WorkList
two = record { segments = (16 ∷ 32 ∷ []) ∷ []; free_list = [] ∷ [] }

two-IsWorkList : IsWorkList two
two-IsWorkList = (((omega arith, omega arith, (omega arith, (omega arith, tt))), tt), (refl, tt))

worklist_pop-push_example :
    IsWorkList (worklist_push 48 two)
    × (addresses (worklist_push 48 two) ≡ 48 ∷ 16 ∷ 32 ∷ [])
    × ((worklist_pop (worklist_push 48 two)).0 ≡ 48)
    × IsWorkList (worklist_pop (worklist_push 48 two)).1
    × (addresses (worklist_pop (worklist_push 48 two)).1 ≡ 16 ∷ 32 ∷ [])
worklist_pop-push_example = worklist_pop-push 48 two (omega arith) two-IsWorkList

abbrev three_cells : ℕ → Bool
three_cells a = a == 16 || a == 32 || a == 48

-- The string at 16 depends on that at 32.
abbrev three_strings : ℕ → GcThing
three_strings a = if a == 16 then primstr_dependent 32 else primstr_flat

-- All three are white.
abbrev idle : Marking
idle = record {
  cell = λ a. record { color = 0; is_free = false };
  work_list = record { segments = []; free_list = [] };
}

abbrev all_cells : List ℕ
all_cells = 16 ∷ 32 ∷ 48 ∷ []

cells_listed : (a : ℕ) → three_cells a ≡ true → 0 < count a all_cells
unfolding count
cells_listed a h = ground (arith, h)

zero_ne_two : ◌≢◌ {A = ℕ} 0 2
zero_ne_two e = omega (arith, e)

one_ne_two : ◌≢◌ {A = ℕ} 1 2
one_ne_two e = omega (arith, e)

zero_ne_one : ◌≢◌ {A = ℕ} 0 1
zero_ne_one e = omega (arith, e)

idle-IsIdle :
    IsIdle three_cells 0 1 all_cells three_strings refl zero_ne_two one_ne_two zero_ne_one
      cells_listed idle
idle-IsIdle = ((tt, tt), refl, λ (a : ℕ) (i : three_cells a ≡ true). inl refl, λ a l. refl)

-- A root holds the string at 16.
collect_inner-Kept_example :
    (after : ℕ → BitmapCell) × (collect_inner three_cells 0 1 three_strings 4
        (encode (string 16) ∷ [])
        []
        []
        []
        all_cells
        idle
      ≡ some after)
    × ((after 32).color ≡ 1)
    × ((after 32).is_free ≡ false)
unfolding whites is_white is_gcthing to_pointer encode count
collect_inner-Kept_example =
    collect_inner-Kept three_cells 0 1 all_cells three_strings refl zero_ne_two one_ne_two
      zero_ne_one cells_listed idle idle-IsIdle (encode (string 16) ∷ []) [] [] [] 4 (omega arith)
      16 32 (32 ∷ []) (inl (encode (string 16), omega arith, refl, refl)) refl
      (omega arith, refl, refl) all_cells

abbrev is_swept : ℕ → Option (ℕ → BitmapCell) → Bool
is_swept a none = false
is_swept a (some cell) = (cell a).is_free

-- Nothing refers to the string at 48.
swept_test :
    is_swept 48 (
      collect_inner three_cells 0 1 three_strings 4
        (encode (string 16) ∷ [])
        []
        []
        []
        all_cells
        idle)
    ≡ true
unfolding worklist_push worklist_pop paint is_white set_gray set_black worklist_push_and_gray
    scan_from process_one process_worklist sweep_cell sweep_heap is_gcthing to_pointer encode
    mark_pointer mark_value mark_values mark_from_modules mark_pointers_in_range mark_sources
    collect_inner
swept_test = refl
