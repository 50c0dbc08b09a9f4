-- ===== src/Collector/Collection.antt =====
-- A collection of runtime/ejs-gc.c, _ejs_gc_collect_inner: what a source reaches is not freed.
use mathlib.Core.Path.{subst}
use echo_js.Base.{
  ℕ, ◌<◌, ◌≡◌, ◌≢◌, refl, ap, ◌∙◌, ◌⊎◌, inl, inr, List, [], Bool, true, false, not, ◌&&◌, none,
  some, get_elem?, arith,
}
use echo_js.Ejsval.{is_gcthing, to_pointer}
use echo_js.PropertyMap.Chains.{count}
use echo_js.Collector.{BitmapCell, gray_mask, GcThing, Marking, sweep_heap}
use echo_js.Collector.Worklist.{addresses, IsWorkList}
use echo_js.Collector.Scanning.{referenced}
use echo_js.Collector.Graying.{color_of, remaining, Listed}
use echo_js.Collector.Blackening.{IsMarking}
use echo_js.Collector.Marked.{Reaches, process_worklist-Marked}
use echo_js.Collector.Sources.{
  mark_values, mark_from_modules, mark_pointers_in_range, mark_sources, collect_inner,
}
use echo_js.Collector.Phases.{
  Phase, Phase-trans, Phase-marked, mark_pointers-Phase, mark_pointers-marks,
}
use echo_js.Collector.Rooted.{
  mark_values-Phase, mark_values-marks, mark_from_modules-Phase, mark_from_modules-marks,
}

-- An allocated cell of the heap.
abbrev pub is_allocated : (ℕ → Bool) → Marking → ℕ → Bool
is_allocated in_heap m a = in_heap a && not (m.cell a).is_free

-- A word that holds the address.
abbrev pub HeldBy : List ℕ → ℕ → Type 0
HeldBy vals p = (val : ℕ) × (0 < count val vals) × (is_gcthing val ≡ true) × (to_pointer val ≡ p)

-- A module that refers to the address.
abbrev pub InModule : List (List ℕ) → ℕ → Type 0
InModule modules p =
    (n : ℕ) × (vals : List ℕ) × (get_elem? modules n ≡ some vals) × (0 < count p (referenced vals))

-- in_heap white_mask black_maskhere a collection starts from.
abbrev pub IsSource : List ℕ → List (List ℕ) → List ℕ → List ℕ → ℕ → Type 0
IsSource roots modules registers stack p =
    HeldBy roots p ⊎ InModule modules p ⊎ (0 < count p registers) ⊎ HeldBy stack p

module _ (in_heap : ℕ → Bool) (white_mask black_mask : ℕ) (objs : List ℕ) (memory : ℕ → GcThing)
    (null_out : in_heap 0 ≡ false) (white_gray : white_mask ≢ 2) (black_gray : black_mask ≢ 2)
    (white_black : white_mask ≢ black_mask)
    (complete : (a : ℕ) → in_heap a ≡ true → 0 < count a objs) where
  -- Between two collections: nothing on the worklist, and every allocated cell white.
  abbrev pub IsIdle : Marking → Type 0
  IsIdle m =
      IsWorkList m.work_list
      × (addresses m.work_list ≡ [])
      × ((a : ℕ)
          → in_heap a ≡ true
          → ((m.cell a).color ≡ white_mask) ⊎ ((m.cell a).color ≡ black_mask))
      × ((a : ℕ) → is_allocated in_heap m a ≡ true → (m.cell a).color ≡ white_mask)

  allocated-split :
      (m : Marking) (a : ℕ)
      → is_allocated in_heap m a ≡ true
      → (in_heap a ≡ true) × ((m.cell a).is_free ≡ false)
  allocated-split m a h = ground (arith, h)

  Step : Marking → Marking → Type 0
  Step = Phase in_heap white_mask black_mask objs null_out white_gray complete

  joins : (m m' m'' : Marking) → Step m m' → Step m' m'' → Step m m''
  unfolding Step
  joins = Phase-trans in_heap white_mask black_mask objs null_out white_gray complete

  stays :
      (m m' : Marking) (a : ℕ) → Step m m' → color_of m a ≢ white_mask → color_of m' a ≢ white_mask
  unfolding Step
  stays = Phase-marked in_heap white_mask black_mask objs null_out white_gray complete

  module _ (m : Marking) (idle : IsIdle m) (roots : List ℕ) (modules : List (List ℕ))
      (registers stack : List ℕ) where
    idle-Listed : Listed in_heap white_mask black_mask objs m
    unfolding color_of
    idle-Listed = (
      idle.0,
      λ (a : ℕ) (i : in_heap a ≡ true) (g : color_of m a ≡ gray_mask).
          absurd (ground (arith, idle.2 a i, g, white_gray, black_gray)),
    )

    -- after the roots, the modules and the registers
    first : Marking
    first = mark_values in_heap white_mask black_mask roots m

    second : Marking
    second = mark_from_modules in_heap white_mask black_mask modules first

    third : Marking
    third = mark_pointers_in_range in_heap white_mask black_mask registers second

    last : Marking
    last = mark_values in_heap white_mask black_mask stack third

    first-Step : Step m first
    unfolding Step first
    first-Step =
        mark_values-Phase in_heap white_mask black_mask objs null_out white_gray complete roots m
          idle-Listed

    first-Listed : Listed in_heap white_mask black_mask objs first
    unfolding Step
    first-Listed = first-Step.0

    second-Step : Step first second
    unfolding Step second
    second-Step =
        mark_from_modules-Phase in_heap white_mask black_mask objs null_out white_gray complete
          modules first first-Listed

    second-Listed : Listed in_heap white_mask black_mask objs second
    unfolding Step
    second-Listed = second-Step.0

    third-Step : Step second third
    unfolding Step third
    third-Step =
        mark_pointers-Phase in_heap white_mask black_mask objs null_out white_gray complete
          registers second second-Listed

    third-Listed : Listed in_heap white_mask black_mask objs third
    unfolding Step
    third-Listed = third-Step.0

    last-Step : Step third last
    unfolding Step last
    last-Step =
        mark_values-Phase in_heap white_mask black_mask objs null_out white_gray complete stack
          third third-Listed

    from_second : Step second last
    from_second = joins second third last third-Step last-Step

    from_first : Step first last
    from_first = joins first second last second-Step from_second

    whole : Step m last
    whole = joins m first last first-Step from_first

    whole-IsMarking :
        IsMarking in_heap white_mask black_mask objs memory (is_allocated in_heap m) last
    unfolding Step color_of
    whole-IsMarking = record {
      listed = whole.0;
      painted = λ (a : ℕ) (i : in_heap a ≡ true). ground (arith, whole.1 a, idle.2 a i);
      no_white_behind =
          λ (p q : ℕ) (l : is_allocated in_heap m p ≡ true) (b : (last.cell p).color ≡ black_mask).
            absurd (ground (arith, whole.1 p, idle.3 p l, b, white_black, black_gray));
    }

    second_free : (p : ℕ) → (second.cell p).is_free ≡ (m.cell p).is_free
    unfolding Step
    second_free p = second-Step.3 p ∙ first-Step.3 p

    third_free : (p : ℕ) → (third.cell p).is_free ≡ (m.cell p).is_free
    unfolding Step
    third_free p = third-Step.3 p ∙ second_free p

    -- What a word holds is marked by the loop over the words.
    held_marked :
        (vals : List ℕ) (m' : Marking)
        → Listed in_heap white_mask black_mask objs m'
        → {p : ℕ} → HeldBy vals p
        → is_allocated in_heap m p ≡ true
        → (m'.cell p).is_free ≡ (m.cell p).is_free
        → color_of (mark_values in_heap white_mask black_mask vals m') p ≢ white_mask
    held_marked vals m' listed {p = p} s l same =
        let a = allocated-split m p l in
        subst
          (λ (b : ℕ). color_of (mark_values in_heap white_mask black_mask vals m') b ≢ white_mask)
          s.3
          (mark_values-marks in_heap white_mask black_mask objs null_out white_gray complete vals m'
            s.0 listed s.1 s.2 (ap in_heap s.3 ∙ a.0)
            (ap (λ (b : ℕ). (m'.cell b).is_free) s.3 ∙ same ∙ a.1))

    -- A source is marked in front of the loop.
    source_marked :
        (p : ℕ)
        → IsSource roots modules registers stack p
        → is_allocated in_heap m p ≡ true
        → color_of last p ≢ white_mask
    unfolding first second third last
    source_marked p (inl s) l =
        stays first last p from_first (held_marked roots m idle-Listed s l refl)
    source_marked p (inr (inl s)) l = stays second last p from_second (
        mark_from_modules-marks in_heap white_mask black_mask objs null_out white_gray complete
          modules first s.0 p s.1 first-Listed s.2 s.3 (allocated-split m p l).0)
    source_marked p (inr (inr (inl s))) l = stays third last p last-Step (
        mark_pointers-marks in_heap white_mask black_mask objs null_out white_gray complete
          registers second p second-Listed s (allocated-split m p l).0
          (second_free p ∙ (allocated-split m p l).1))
    source_marked p (inr (inr (inr s))) l = held_marked stack third third-Listed s l (third_free p)

    -- Let the colours be different, NULL not in the heap, and `objs` a list of what is in the heap,
    -- and let every allocated cell be white, the worklist empty, and no cell gray. On more fuel than
    -- there are white objects, a collection ends. Whatever can be reached, along references
    -- between allocated objects, from an allocated object to which a registered root, a module, a
    -- register or the stack refers, is black after it and allocated as before.
    pub collect_inner-Kept :
        (fuel : ℕ)
        → remaining in_heap white_mask black_mask objs m < fuel
        → (p q : ℕ) (path : List ℕ) → IsSource roots modules registers stack p
        → is_allocated in_heap m p ≡ true
        → Reaches in_heap white_mask black_mask objs memory (is_allocated in_heap m) p path q
        → (cells : List ℕ)
        → (after : ℕ → BitmapCell) × (collect_inner in_heap white_mask black_mask memory fuel roots
              modules registers stack cells m
            ≡ some after)
          × ((after q).color ≡ black_mask)
          × ((after q).is_free ≡ (m.cell q).is_free)
    unfolding collect_inner mark_sources first second third last Step color_of
    collect_inner-Kept fuel h p q path s l r cells =
        let e =
          process_worklist-Marked in_heap white_mask black_mask objs memory (is_allocated in_heap m)
            null_out white_gray black_gray white_black complete (λ a b. (allocated-split m a b).0)
            last whole-IsMarking fuel (omega (arith, h, whole.2)) p q path l (source_marked p s l) r
            cells in
        (
          sweep_heap white_mask cells e.0.cell,
          ap (λ o. elim o [ none ↦ none | some m' ↦ some (sweep_heap white_mask cells m'.cell) ])
              e.1,
          ap (λ (c : BitmapCell). c.color) e.5 ∙ e.3,
          ap (λ (c : BitmapCell). c.is_free) e.5 ∙ e.4 ∙ whole.3 q,
        )
