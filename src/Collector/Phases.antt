-- ===== src/Collector/Phases.antt =====
-- What the loops of runtime/ejs-gc.c that mark from pointers do.
use mathlib.Core.Path.{subst}
use echo_js.Base.{
  ℕ, ◌≤◌, ◌<◌, ◌≡◌, ◌≢◌, refl, sym, ◌∙◌, ==_iff, ◌⊎◌, inl, inr, List, [], ◌∷◌, Bool, true, false,
  ◌==◌, if-cases, Bool-cases, arith,
}
use echo_js.PropertyMap.Chains.{count}
use echo_js.Collector.{
  BitmapCell, gray_mask, Marking, paint, is_white, set_gray, worklist_push_and_gray,
}
use echo_js.Collector.Scanning.{gray_all}
use echo_js.Collector.Graying.{color_of, remaining, Listed, gray_all-Grayed}
use echo_js.Collector.Sources.{mark_pointer, mark_pointers_in_range}

module _ (in_heap : ℕ → Bool) (white_mask black_mask : ℕ) (objs : List ℕ)
    (null_out : in_heap 0 ≡ false) (white_gray : white_mask ≢ 2)
    (complete : (a : ℕ) → in_heap a ≡ true → 0 < count a objs) where
  -- A phase that only grays white objects, and frees no cell.
  abbrev pub Phase : Marking → Marking → Type 0
  Phase m m' =
      Listed in_heap white_mask black_mask objs m'
      × ((a : ℕ)
          → (color_of m' a ≡ color_of m a)
            ⊎ ((color_of m a ≡ white_mask) × (color_of m' a ≡ gray_mask)))
      × (remaining in_heap white_mask black_mask objs m'
          ≤ remaining in_heap white_mask black_mask objs m)
      × ((a : ℕ) → (m'.cell a).is_free ≡ (m.cell a).is_free)

  pub Phase-refl : (m : Marking) → Listed in_heap white_mask black_mask objs m → Phase m m
  Phase-refl m l = (l, λ a. inl refl, omega arith, λ a. refl)

  pub Phase-trans : (m m' m'' : Marking) → Phase m m' → Phase m' m'' → Phase m m''
  Phase-trans m m' m'' f g = (
    g.0,
    λ (a : ℕ). ground (arith, f.1 a, g.1 a, white_gray),
    omega (arith, f.2, g.2),
    λ (a : ℕ). ground (arith, f.3 a, g.3 a),
  )

  -- What is not white stays so.
  pub Phase-marked :
      (m m' : Marking) (a : ℕ) → Phase m m' → color_of m a ≢ white_mask → color_of m' a ≢ white_mask
  Phase-marked m m' a f h e = ground (arith, f.1 a, h, e, white_gray)

  push-free :
      (x : ℕ) (m : Marking) (a : ℕ)
      → ((worklist_push_and_gray in_heap white_mask black_mask x m).cell a).is_free
        ≡ (m.cell a).is_free
  unfolding worklist_push_and_gray set_gray paint
  push-free x m a =
      if-cases (λ (r : Marking). (r.cell a).is_free ≡ (m.cell a).is_free)
        (is_white in_heap white_mask black_mask m.cell x)
        (λ h.
          if-cases (λ (c : ℕ → BitmapCell). (c a).is_free ≡ (m.cell a).is_free) (in_heap x)
            (λ i.
              if-cases (λ (b : BitmapCell). b.is_free ≡ (m.cell a).is_free) (a == x) (λ e. refl)
                (λ e. refl))
            (λ i. refl))
        (λ h. refl)

  pub gray_all-free :
      (xs : List ℕ) (m : Marking) (a : ℕ)
      → ((gray_all in_heap white_mask black_mask xs m).cell a).is_free ≡ (m.cell a).is_free
  unfolding gray_all
  gray_all-free [] m a = refl
  gray_all-free (x ∷ xs) m a = ground (
    arith,
    push-free x m a,
    gray_all-free xs (worklist_push_and_gray in_heap white_mask black_mask x m) a,
  )

  pub gray_all-Phase :
      (xs : List ℕ) (m : Marking)
      → Listed in_heap white_mask black_mask objs m
      → Phase m (gray_all in_heap white_mask black_mask xs m)
  gray_all-Phase xs m l =
      let g =
        gray_all-Grayed in_heap white_mask black_mask objs null_out white_gray complete xs m l in
      (g.0, g.1, g.3, gray_all-free xs m)

  pub mark_pointer-Phase :
      (p : ℕ) (m : Marking)
      → Listed in_heap white_mask black_mask objs m
      → Phase m (mark_pointer in_heap white_mask black_mask p m)
  unfolding mark_pointer gray_all
  mark_pointer-Phase p m l =
      if-cases (Phase m) (p == 0) (λ a. Phase-refl m l)
        (λ a.
          if-cases (Phase m) (in_heap p)
            (λ b.
              if-cases (Phase m) (m.cell p).is_free (λ c. Phase-refl m l)
                (λ c. gray_all-Phase (p ∷ []) m l))
            (λ b. Phase-refl m l))

  not_null : (p : ℕ) → (p == 0) ≡ true → ¬ (in_heap p ≡ true)
  not_null p a i = ground (arith, a, i, null_out)

  -- A pointer to an allocated cell of the heap is marked.
  pub mark_pointer-marks :
      (p : ℕ) (m : Marking)
      → Listed in_heap white_mask black_mask objs m
      → in_heap p ≡ true
      → (m.cell p).is_free ≡ false
      → color_of (mark_pointer in_heap white_mask black_mask p m) p ≢ white_mask
  unfolding mark_pointer gray_all count
  mark_pointer-marks p m l i f =
      if-cases (λ (r : Marking). color_of r p ≢ white_mask) (p == 0) (λ a. absurd (not_null p a i))
        (λ a.
          if-cases (λ (r : Marking). color_of r p ≢ white_mask) (in_heap p)
            (λ b.
              if-cases (λ (r : Marking). color_of r p ≢ white_mask) (m.cell p).is_free
                (λ c. absurd (ground (arith, c, f)))
                (λ c.
                  (gray_all-Grayed in_heap white_mask black_mask objs null_out white_gray complete
                      (p ∷ []) m l).2
                    p (ground arith) i))
            (λ b. absurd (ground (arith, b, i))))

  pub mark_pointers-Phase :
      (ps : List ℕ) (m : Marking)
      → Listed in_heap white_mask black_mask objs m
      → Phase m (mark_pointers_in_range in_heap white_mask black_mask ps m)
  unfolding mark_pointers_in_range
  mark_pointers-Phase [] m l = Phase-refl m l
  mark_pointers-Phase (p ∷ ps) m l =
      let f = mark_pointer-Phase p m l in
      Phase-trans m (mark_pointer in_heap white_mask black_mask p m)
        (mark_pointers_in_range in_heap white_mask black_mask ps
          (mark_pointer in_heap white_mask black_mask p m))
        f (mark_pointers-Phase ps (mark_pointer in_heap white_mask black_mask p m) f.0)

  pub mark_pointers-marks :
      (ps : List ℕ) (m : Marking) (p : ℕ)
      → Listed in_heap white_mask black_mask objs m
      → 0 < count p ps
      → in_heap p ≡ true
      → (m.cell p).is_free ≡ false
      → color_of (mark_pointers_in_range in_heap white_mask black_mask ps m) p ≢ white_mask
  unfolding mark_pointers_in_range count
  mark_pointers-marks [] m p l c i f = absurd (omega arith)
  mark_pointers-marks (x ∷ ps) m p l c i f =
      let g = mark_pointer-Phase x m l in
      let m' = mark_pointer in_heap white_mask black_mask x m in
      elim (Bool-cases (x == p)) [
        | inl e ↦
            Phase-marked m' (mark_pointers_in_range in_heap white_mask black_mask ps m') p
              (mark_pointers-Phase ps m' g.0)
              (subst
                (λ (y : ℕ).
                  color_of (mark_pointer in_heap white_mask black_mask y m) p ≢ white_mask)
                (sym ((==_iff x p).0 e)) (mark_pointer-marks p m l i f))
        | inr e ↦ mark_pointers-marks ps m' p g.0 (ground (arith, c, e)) i (g.3 p ∙ f)
      ]
