-- ===== src/Collector/Rooted.antt =====
-- What the loops of runtime/ejs-gc.c that mark from values and from modules do.
use mathlib.Core.Path.{subst}
use mathlib.Core.Option.{some-injective}
use echo_js.Base.{
  zero, suc, get_elem?, ℕ, ◌<◌, ◌≡◌, ◌≢◌, sym, ◌∙◌, ==_iff, inl, inr, List, [], ◌∷◌, Bool, true,
  false, some, ◌==◌, if◌then◌else◌, if-cases, Bool-cases, arith,
}
use echo_js.Ejsval.{is_gcthing, to_pointer}
use echo_js.PropertyMap.Chains.{count}
use echo_js.Collector.{Marking, scan_ejsvalues}
use echo_js.Collector.Scanning.{referenced, scan_ejsvalues-gray_all}
use echo_js.Collector.Graying.{color_of, Listed, gray_all-Grayed}
use echo_js.Collector.Sources.{mark_pointer, mark_value, mark_values, mark_from_modules}
use echo_js.Collector.Phases.{
  Phase, Phase-refl, Phase-trans, Phase-marked, mark_pointer-Phase, mark_pointer-marks,
  gray_all-Phase,
}

module _ (in_heap : ℕ → Bool) (white_mask black_mask : ℕ) (objs : List ℕ)
    (null_out : in_heap 0 ≡ false) (white_gray : white_mask ≢ 2)
    (complete : (a : ℕ) → in_heap a ≡ true → 0 < count a objs) where
  Step : Marking → Marking → Type 0
  Step = Phase in_heap white_mask black_mask objs null_out white_gray complete

  Ready : Marking → Type 0
  Ready = Listed in_heap white_mask black_mask objs

  stays :
      (m m' : Marking) (a : ℕ) → Step m m' → color_of m a ≢ white_mask → color_of m' a ≢ white_mask
  unfolding Step
  stays = Phase-marked in_heap white_mask black_mask objs null_out white_gray complete

  joins : (m m' m'' : Marking) → Step m m' → Step m' m'' → Step m m''
  unfolding Step
  joins = Phase-trans in_heap white_mask black_mask objs null_out white_gray complete

  mark_value-Phase :
      (val : ℕ) (m : Marking) → Ready m → Step m (mark_value in_heap white_mask black_mask val m)
  unfolding mark_value Step Ready
  mark_value-Phase val m l =
      if-cases (Step m) (is_gcthing val)
        (λ a.
          mark_pointer-Phase in_heap white_mask black_mask objs null_out white_gray complete
            (to_pointer val) m l)
        (λ a. Phase-refl in_heap white_mask black_mask objs null_out white_gray complete m l)

  mark_value-marks :
      (val : ℕ) (m : Marking)
      → Ready m
      → is_gcthing val ≡ true
      → in_heap (to_pointer val) ≡ true
      → (m.cell (to_pointer val)).is_free ≡ false
      → color_of (mark_value in_heap white_mask black_mask val m) (to_pointer val) ≢ white_mask
  unfolding mark_value Ready
  mark_value-marks val m l g i f =
      subst
        (λ (b : Bool).
          color_of (if b then mark_pointer in_heap white_mask black_mask (to_pointer val) m else m)
            (to_pointer val)
          ≢ white_mask)
        (sym g)
        (mark_pointer-marks in_heap white_mask black_mask objs null_out white_gray complete
          (to_pointer val) m l i f)

  pub mark_values-Phase :
      (vals : List ℕ) (m : Marking)
      → Listed in_heap white_mask black_mask objs m
      → Phase in_heap white_mask black_mask objs null_out white_gray complete m
          (mark_values in_heap white_mask black_mask vals m)
  unfolding mark_values Step Ready
  mark_values-Phase [] m l =
      Phase-refl in_heap white_mask black_mask objs null_out white_gray complete m l
  mark_values-Phase (val ∷ vals) m l =
      let m' = mark_value in_heap white_mask black_mask val m in
      let f = mark_value-Phase val m l in
      joins m m' (mark_values in_heap white_mask black_mask vals m') f
        (mark_values-Phase vals m' f.0)

  pub mark_values-marks :
      (vals : List ℕ) (m : Marking) (val : ℕ)
      → Listed in_heap white_mask black_mask objs m
      → 0 < count val vals
      → is_gcthing val ≡ true
      → in_heap (to_pointer val) ≡ true
      → (m.cell (to_pointer val)).is_free ≡ false
      → color_of (mark_values in_heap white_mask black_mask vals m) (to_pointer val) ≢ white_mask
  unfolding mark_values count Step Ready
  mark_values-marks [] m val l c g i f = absurd (omega arith)
  mark_values-marks (x ∷ vals) m val l c g i f =
      let m' = mark_value in_heap white_mask black_mask x m in
      let s = mark_value-Phase x m l in
      elim (Bool-cases (x == val)) [
        | inl e ↦
            stays m' (mark_values in_heap white_mask black_mask vals m') (to_pointer val)
              (mark_values-Phase vals m' s.0)
              (subst
                (λ (y : ℕ).
                  color_of (mark_value in_heap white_mask black_mask y m) (to_pointer val)
                  ≢ white_mask)
                (sym ((==_iff x val).0 e)) (mark_value-marks val m l g i f))
        | inr e ↦
            mark_values-marks vals m' val s.0 (ground (arith, c, e)) g i (s.3 (to_pointer val) ∙ f)
      ]

  module_Listed :
      (vals : List ℕ) (m : Marking)
      → Ready m
      → Ready (scan_ejsvalues in_heap white_mask black_mask vals m)
  unfolding Ready Step
  module_Listed vals m l =
      subst Ready (sym (scan_ejsvalues-gray_all in_heap white_mask black_mask vals m))
        (gray_all-Phase in_heap white_mask black_mask objs null_out white_gray complete
          (referenced vals) m l).0

  pub mark_from_modules-Phase :
      (modules : List (List ℕ)) (m : Marking)
      → Listed in_heap white_mask black_mask objs m
      → Phase in_heap white_mask black_mask objs null_out white_gray complete m
          (mark_from_modules in_heap white_mask black_mask modules m)
  unfolding mark_from_modules Step Ready
  mark_from_modules-Phase [] m l =
      Phase-refl in_heap white_mask black_mask objs null_out white_gray complete m l
  mark_from_modules-Phase (vals ∷ rest) m l =
      let m' = scan_ejsvalues in_heap white_mask black_mask vals m in
      let f : Step m m' =
        subst (Step m) (sym (scan_ejsvalues-gray_all in_heap white_mask black_mask vals m)) (
          gray_all-Phase in_heap white_mask black_mask objs null_out white_gray complete
            (referenced vals) m l) in
      joins m m' (mark_from_modules in_heap white_mask black_mask rest m') f
        (mark_from_modules-Phase rest m' f.0)

  pub mark_from_modules-marks :
      (modules : List (List ℕ)) (m : Marking) (n q : ℕ) (vals : List ℕ)
      → Listed in_heap white_mask black_mask objs m
      → get_elem? modules n ≡ some vals
      → 0 < count q (referenced vals)
      → in_heap q ≡ true
      → color_of (mark_from_modules in_heap white_mask black_mask modules m) q ≢ white_mask
  unfolding mark_from_modules Step Ready
  mark_from_modules-marks [] m n q vals l e c i = absurd (ground (arith, e))
  mark_from_modules-marks (x ∷ rest) m zero q vals l e c i =
      let m' = scan_ejsvalues in_heap white_mask black_mask x m in
      let same = scan_ejsvalues-gray_all in_heap white_mask black_mask x m in
      let g =
        gray_all-Grayed in_heap white_mask black_mask objs null_out white_gray complete
          (referenced x) m l in
      let here =
        subst (λ (ys : List ℕ). 0 < count q (referenced ys)) (sym (some-injective x vals e)) c in
      stays m' (mark_from_modules in_heap white_mask black_mask rest m') q
        (mark_from_modules-Phase rest m' (module_Listed x m l))
        (subst (λ (r : Marking). color_of r q ≢ white_mask) (sym same) (g.2 q here i))
  mark_from_modules-marks (x ∷ rest) m (suc n) q vals l e c i =
      mark_from_modules-marks rest (scan_ejsvalues in_heap white_mask black_mask x m) n q vals
        (module_Listed x m l) e c i
