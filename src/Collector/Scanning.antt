-- ===== src/Collector/Scanning.antt =====
-- What scanning one object of runtime/ejs-gc.c does to the colours and to the worklist.
use echo_js.Base.{ℕ, ◌≡◌, refl, List, [], ◌∷◌, Bool, ◌==◌, if◌then◌else◌, arith}
use echo_js.Ejsval.{is_traceable, to_pointer}
use echo_js.Collector.{
  GcThing, object, primstr_rope, primstr_dependent, primstr_flat, primsym, closureenv, Marking,
  worklist_push_and_gray, scan_ejsvalue, scan_ejsvalues, scan_from,
}

-- The addresses that the values of a list hold, NULL left out.
abbrev pub referenced : List ℕ → List ℕ
referenced [] = []
referenced (val ∷ vals) =
    let rest = referenced vals in
    if is_traceable val then (if to_pointer val == 0 then rest else to_pointer val ∷ rest) else rest

-- The addresses that an object refers to.
abbrev pub references : GcThing → List ℕ
references (object vals) = referenced vals
references (primstr_rope left right) = left ∷ right ∷ []
references (primstr_dependent dep) = dep ∷ []
references primstr_flat = []
references (primsym description) = referenced (description ∷ [])
references (closureenv slots) = referenced slots

module _ (in_heap : ℕ → Bool) (white_mask black_mask : ℕ) where
  -- WORKLIST_PUSH_AND_GRAY for one after the other.
  unfoldable pub gray_all : List ℕ → Marking → Marking
  gray_all [] m = m
  gray_all (x ∷ xs) m = gray_all xs (worklist_push_and_gray in_heap white_mask black_mask x m)

  pub scan_ejsvalues-gray_all :
      (vals : List ℕ) (m : Marking)
      → scan_ejsvalues in_heap white_mask black_mask vals m ≡ gray_all (referenced vals) m
  unfolding scan_ejsvalues scan_ejsvalue gray_all
  scan_ejsvalues-gray_all [] m = refl
  scan_ejsvalues-gray_all (val ∷ vals) m = ground (
    arith,
    scan_ejsvalues-gray_all vals m,
    scan_ejsvalues-gray_all vals
        (worklist_push_and_gray in_heap white_mask black_mask (to_pointer val) m),
  )

  pub scan_from-gray_all :
      (thing : GcThing) (m : Marking)
      → scan_from in_heap white_mask black_mask thing m ≡ gray_all (references thing) m
  unfolding scan_from gray_all
  scan_from-gray_all (object vals) m = scan_ejsvalues-gray_all vals m
  scan_from-gray_all (primstr_rope left right) m = refl
  scan_from-gray_all (primstr_dependent dep) m = refl
  scan_from-gray_all primstr_flat m = refl
  scan_from-gray_all (primsym description) m = scan_ejsvalues-gray_all (description ∷ []) m
  scan_from-gray_all (closureenv slots) m = scan_ejsvalues-gray_all slots m
