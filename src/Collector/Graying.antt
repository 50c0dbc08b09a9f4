-- ===== src/Collector/Graying.antt =====
-- WORKLIST_PUSH_AND_GRAY of runtime/ejs-gc.c, one and many: which colours change, what is on the
-- worklist, and what there is left to do.
use echo_js.Base.{
  ℕ, ◌+◌, ◌≤◌, ◌<◌, ◌≡◌, ◌≢◌, refl, ap, ◌⊎◌, inl, List, [], ◌∷◌, Bool, true, false, length, ◌==◌,
  if◌then◌else◌, if-cases, arith,
}
use echo_js.PropertyMap.Chains.{count}
use echo_js.Collector.{
  BitmapCell, gray_mask, Marking, worklist_push, paint, is_white, set_gray, worklist_push_and_gray,
}
use echo_js.Collector.Worklist.{addresses, IsWorkList, Stacks, worklist_push-Stacks}
use echo_js.Collector.Scanning.{gray_all}

unfoldable pub color_of : Marking → ℕ → ℕ
color_of m a = (m.cell a).color

pub color-paint :
    (cell : ℕ → BitmapCell) (ptr c a : ℕ)
    → (paint ptr c cell a).color ≡ (if a == ptr then c else (cell a).color)
unfolding paint
color-paint cell ptr c a =
    if-cases (λ (b : BitmapCell). b.color ≡ (if a == ptr then c else (cell a).color)) (a == ptr)
      (λ h. ground arith) (λ h. ground arith)

module _ (in_heap : ℕ → Bool) (white_mask black_mask : ℕ) (objs : List ℕ) where
  -- The white ones among the objects.
  unfoldable pub whites : (ℕ → BitmapCell) → List ℕ → ℕ
  whites cell [] = 0
  whites cell (a ∷ rest) =
      let others = whites cell rest in
      if is_white in_heap white_mask black_mask cell a then others + 1 else others

  -- What there is left to do.
  abbrev pub remaining : Marking → ℕ
  remaining m = whites m.cell objs + length (addresses m.work_list)

  -- The worklist is one, and the gray objects are on it.
  abbrev pub Listed : Marking → Type 0
  Listed m =
      IsWorkList m.work_list
      × ((a : ℕ)
          → in_heap a ≡ true
          → color_of m a ≡ gray_mask
          → 0 < count a (addresses m.work_list))

  -- From `m` to `m'` only white cells have changed, to gray, and those of `xs` that are in the
  -- heap are not white; and there is no more left to do.
  abbrev pub Grayed : List ℕ → Marking → Marking → Type 0
  Grayed xs m m' =
      Listed m'
      × ((a : ℕ)
          → (color_of m' a ≡ color_of m a)
            ⊎ ((color_of m a ≡ white_mask) × (color_of m' a ≡ gray_mask)))
      × ((a : ℕ) → 0 < count a xs → in_heap a ≡ true → color_of m' a ≢ white_mask)
      × (remaining m' ≤ remaining m)

  module _ (null_out : in_heap 0 ≡ false) (white_gray : white_mask ≢ 2)
      (complete : (a : ℕ) → in_heap a ≡ true → 0 < count a objs) where
    whites-set_gray :
        (cell : ℕ → BitmapCell) (x : ℕ) (rest : List ℕ)
        → is_white in_heap white_mask black_mask cell x ≡ true
        → (whites (set_gray in_heap white_mask black_mask cell x) rest + count x rest
            ≡ whites cell rest)
    unfolding whites is_white set_gray count
    whites-set_gray cell x [] h = refl
    whites-set_gray cell x (a ∷ rest) h =
        ground (arith, whites-set_gray cell x rest h, color-paint cell x gray_mask a)

    is_white-split :
        (cell : ℕ → BitmapCell) (x : ℕ)
        → is_white in_heap white_mask black_mask cell x ≡ true
        → (in_heap x ≡ true) × ((cell x).color ≡ white_mask)
    unfolding is_white
    is_white-split cell x h = ground arith

    is_white-not :
        (cell : ℕ → BitmapCell) (x : ℕ)
        → is_white in_heap white_mask black_mask cell x ≡ false
        → in_heap x ≡ true
        → (cell x).color ≢ white_mask
    unfolding is_white
    is_white-not cell x h i e = ground arith

    count-single : (a x : ℕ) → 0 < count a (x ∷ []) → a ≡ x
    unfolding count
    count-single a x h = ground arith

    module _ (x : ℕ) (m : Marking) (l : Listed m)
        (white : is_white in_heap white_mask black_mask m.cell x ≡ true) where
      grayed : Marking
      grayed = record {
        work_list = worklist_push x m.work_list;
        cell = set_gray in_heap white_mask black_mask m.cell x;
      }

      color-grayed : (a : ℕ) → color_of grayed a ≡ (if a == x then gray_mask else color_of m a)
      unfolding grayed set_gray color_of
      color-grayed a =
          ground (arith, is_white-split m.cell x white, color-paint m.cell x gray_mask a)

      not_null : 0 < x
      not_null = ground (arith, is_white-split m.cell x white, null_out)

      stacked : Stacks (worklist_push x m.work_list) (x ∷ addresses m.work_list)
      stacked = worklist_push-Stacks x not_null m.work_list l.0

      grayed-Listed : Listed grayed
      unfolding grayed count
      grayed-Listed = (
        stacked.0,
        λ (a : ℕ) (i : in_heap a ≡ true) (g : color_of grayed a ≡ gray_mask).
            ground (arith, l.1 a i, color-grayed a, g, ap (count a) stacked.1),
      )

      grayed-remaining : remaining grayed ≤ remaining m
      unfolding grayed
      grayed-remaining = omega (
        arith,
        ap length stacked.1,
        whites-set_gray m.cell x objs white,
        complete x (is_white-split m.cell x white).0,
      )

      gray_white-Grayed : Grayed (x ∷ []) m grayed
      unfolding color_of
      gray_white-Grayed = (
        grayed-Listed,
        λ (a : ℕ). ground (arith, color-grayed a, (is_white-split m.cell x white).1),
        λ (a : ℕ) (c : 0 < count a (x ∷ [])) (i : in_heap a ≡ true)
              (e : color_of grayed a ≡ white_mask).
            ground (arith, color-grayed a, count-single a x c, e, white_gray),
        grayed-remaining,
      )

    gray_one-Grayed :
        (x : ℕ) (m : Marking)
        → Listed m
        → Grayed (x ∷ []) m (worklist_push_and_gray in_heap white_mask black_mask x m)
    unfolding worklist_push_and_gray grayed color_of
    gray_one-Grayed x m l =
        if-cases (Grayed (x ∷ []) m) (is_white in_heap white_mask black_mask m.cell x)
          (gray_white-Grayed x m l)
          (λ h. (
            l,
            λ a. inl refl,
            λ a c i. is_white-not m.cell a (ground (arith, count-single a x c, h)) i,
            omega arith,
          ))

    Grayed-trans :
        (x : ℕ) (xs : List ℕ) (m m' m'' : Marking)
        → Grayed (x ∷ []) m m'
        → Grayed xs m' m''
        → Grayed (x ∷ xs) m m''
    unfolding count
    Grayed-trans x xs m m' m'' f g = (
      g.0,
      λ (a : ℕ). ground (arith, f.1 a, g.1 a, white_gray),
      λ (a : ℕ) (c : 0 < count a (x ∷ xs)) (i : in_heap a ≡ true) (e : color_of m'' a ≡ white_mask).
          ground (arith, f.2 a, g.1 a, g.2 a, c, i, e, white_gray),
      omega (arith, f.3, g.3),
    )

    pub gray_all-Grayed :
        (xs : List ℕ) (m : Marking)
        → Listed m
        → Grayed xs m (gray_all in_heap white_mask black_mask xs m)
    unfolding gray_all count
    gray_all-Grayed [] m l = (l, λ a. inl refl, λ a c i e. absurd (omega arith), omega arith)
    gray_all-Grayed (x ∷ xs) m l =
        let m' = worklist_push_and_gray in_heap white_mask black_mask x m in
        let f = gray_one-Grayed x m l in
        Grayed-trans x xs m m' (gray_all in_heap white_mask black_mask xs m') f
          (gray_all-Grayed xs m' f.0)
