-- ===== src/Collector/Worklist.antt =====
-- The worklist of runtime/ejs-gc.c as a stack, and the bound of its segments.
use mathlib.Core.Path.{subst}
use echo_js.Base.{
  ℕ, ◌≤◌, ◌<◌, ◌≡◌, refl, List, [], ◌∷◌, ◌++◌, false, All, length, ◌==◌, if-cases, arith,
}
use echo_js.Collector.{WorkList, with_segment, put_back, worklist_push, worklist_pop}

abbrev pub joined : List (List ℕ) → List ℕ
joined [] = []
joined (s ∷ ss) = s ++ joined ss

-- The addresses on the worklist, the next one first.
abbrev pub addresses : WorkList → List ℕ
addresses w = joined w.segments

-- Neither empty nor overfull, and holding no NULL.
abbrev pub IsSegment : List ℕ → Type 0
IsSegment s = (0 < length s) × (length s ≤ 512) × All (λ x. 0 < x) s

abbrev pub IsWorkList : WorkList → Type 0
IsWorkList w = All IsSegment w.segments × All (λ s. length s ≡ 0) w.free_list

-- What holds after an operation that leaves these addresses.
abbrev pub Stacks : WorkList → List ℕ → Type 0
Stacks w xs = IsWorkList w × (addresses w ≡ xs)

abbrev pub work_of : List (List ℕ) → List (List ℕ) → WorkList
work_of ss fs = record { segments = ss; free_list = fs }

module _ (obj : ℕ) (some_obj : 0 < obj) where
  with_segment-Stacks :
      (ss fs : List (List ℕ))
      → IsWorkList (work_of ss fs)
      → Stacks (with_segment obj (work_of ss fs)) (obj ∷ joined ss)
  with_segment-Stacks ss [] v = (((((omega arith, omega arith, (some_obj, tt))), v.0), tt), refl)
  with_segment-Stacks ss ([] ∷ fs) v =
      ((((omega arith, omega arith, (some_obj, tt)), v.0), v.1.1), refl)
  with_segment-Stacks ss ((x ∷ xs) ∷ fs) v = absurd (omega (arith, v.1.0))

  onto-Stacks :
      (s : List ℕ) (ss fs : List (List ℕ))
      → IsWorkList (work_of (s ∷ ss) fs)
      → (length s == 512) ≡ false
      → Stacks (work_of ((obj ∷ s) ∷ ss) fs) (obj ∷ (s ++ joined ss))
  onto-Stacks s ss fs v h =
      ((((omega arith, ground (arith, v.0.0), (some_obj, v.0.0.2)), v.0.1), v.1), refl)

  push_of-Stacks :
      (ss fs : List (List ℕ))
      → IsWorkList (work_of ss fs)
      → Stacks (worklist_push obj (work_of ss fs)) (obj ∷ joined ss)
  unfolding worklist_push
  push_of-Stacks [] fs v =
      if-cases (λ w. Stacks w (obj ∷ [])) (obj == 0) (λ h. absurd (ground arith))
        (λ h. with_segment-Stacks [] fs v)
  push_of-Stacks (s ∷ ss) fs v =
      if-cases (λ w. Stacks w (obj ∷ joined (s ∷ ss))) (obj == 0) (λ h. absurd (ground arith))
        (λ h.
          if-cases (λ w. Stacks w (obj ∷ joined (s ∷ ss))) (length s == 512)
            (λ k. with_segment-Stacks (s ∷ ss) fs v) (λ k. onto-Stacks s ss fs v k))

  -- A push leaves a worklist with the address on top.
  pub worklist_push-Stacks :
      (w : WorkList) → IsWorkList w → Stacks (worklist_push obj w) (obj ∷ addresses w)
  worklist_push-Stacks w v = push_of-Stacks w.segments w.free_list v

put_back-Stacks :
    (objs : List ℕ) (rest : List (List ℕ)) (w : WorkList)
    → length objs ≤ 512
    → All (λ x. 0 < x) objs
    → All IsSegment rest
    → All (λ s. length s ≡ 0) w.free_list
    → Stacks (put_back objs rest w) (objs ++ joined rest)
put_back-Stacks [] rest w h p v f = ((v, (refl, f)), refl)
put_back-Stacks (x ∷ xs) rest w h p v f = ((((omega arith, h, p), v), f), refl)

-- What popping leaves, by the addresses on the worklist.
unfoldable pub Popped : ℕ × WorkList → List ℕ → Type 0
Popped r [] = (r.0 ≡ 0) × Stacks r.1 []
Popped r (x ∷ xs) = (0 < r.0) × (r.0 ≡ x) × Stacks r.1 xs

top-Popped :
    (s : List ℕ) (ss fs : List (List ℕ))
    → IsWorkList (work_of (s ∷ ss) fs)
    → Popped (worklist_pop (work_of (s ∷ ss) fs)) (s ++ joined ss)
unfolding Popped worklist_pop
top-Popped [] ss fs v = absurd (omega (arith, v.0.0))
top-Popped (x ∷ xs) ss fs v = (
  v.0.0.2.0,
  refl,
  put_back-Stacks xs ss (work_of ((x ∷ xs) ∷ ss) fs) (omega (arith, v.0.0)) v.0.0.2.1 v.0.1 v.1,
)

pop_of-Popped :
    (ss fs : List (List ℕ))
    → IsWorkList (work_of ss fs)
    → Popped (worklist_pop (work_of ss fs)) (joined ss)
unfolding Popped worklist_pop
pop_of-Popped [] fs v = (refl, (v, refl))
pop_of-Popped (s ∷ ss) fs v = top-Popped s ss fs v

-- A pop gives what is on top, and leaves a worklist with the rest.
pub worklist_pop-Popped : (w : WorkList) → IsWorkList w → Popped (worklist_pop w) (addresses w)
worklist_pop-Popped w v = pop_of-Popped w.segments w.free_list v

-- On a worklist whose segments hold between 1 and 512 addresses and no NULL, and whose free segments
-- are empty, and for an address other than NULL: a push leaves such a worklist, so that no segment
-- is written past its 512 places, with the address on top; and a pop after it gives the address
-- back, and leaves such a worklist with the addresses that were there before.
pub worklist_pop-push :
    (obj : ℕ) (w : WorkList)
    → 0 < obj
    → IsWorkList w
    → IsWorkList (worklist_push obj w)
      × (addresses (worklist_push obj w) ≡ obj ∷ addresses w)
      × ((worklist_pop (worklist_push obj w)).0 ≡ obj)
      × IsWorkList (worklist_pop (worklist_push obj w)).1
      × (addresses (worklist_pop (worklist_push obj w)).1 ≡ addresses w)
unfolding Popped
worklist_pop-push obj w h v =
    let pushed = worklist_push-Stacks obj h w v in
    let popped =
      subst (Popped (worklist_pop (worklist_push obj w))) pushed.1
        (worklist_pop-Popped (worklist_push obj w) pushed.0) in
    (pushed.0, pushed.1, popped.1, popped.2.0, popped.2.1)
