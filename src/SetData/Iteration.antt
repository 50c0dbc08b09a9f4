-- ===== src/SetData/Iteration.antt =====
-- What a Set iterator returns, and what a deletion during the iteration does to it.
use mathlib.Core.Option
use echo_js.Base.{
  ℕ, suc, ◌+◌, ◌-◌, ◌≤◌, ◌<◌, ◌≡◌, refl, sym, ap, ◌∙◌, List, [], ◌∷◌, ◌++◌, true, false, All, none,
  some, ok, arith, ltb, get_elem?, get_elem?-cons, get_elem?-append_right, length, Bool-cases, inl,
  inr, Option-cases,
}
use echo_js.Equality.{Memory, same_value_zero}
use echo_js.Objects.{no_iter_value, is_no_iter_value}
use echo_js.MapData.Iterator.{Kind}
use echo_js.SetData.{is_live, set_delete}
use echo_js.SetData.Iterator.{SetIterator, set_iterator_next, seek, item_of, live}

seek-live :
    (index i : ℕ) (es : List ℕ) → i ≤ index → seek index i es ≡ get_elem? (live es) (index - i)
unfolding seek live
seek-live index i [] h = refl
seek-live index i (e ∷ es) h = elim (Bool-cases (is_live e)) [
  | inr dead ↦ rw dead (seek-live index i es h)
  | inl lives ↦ rw lives (elim (Bool-cases (ltb i index)) [
    | inl before ↦
        rw (before, get_elem?-cons e (live es) (index - i) (ground arith))
          (seek-live index (i + 1) es (ground arith) ∙ ap (get_elem? (live es)) (omega arith))
    | inr here ↦ let same : index - i ≡ 0 = ground arith in rw (here, same)
  ])
]

sub-zero : (i : ℕ) → i - 0 ≡ i
sub-zero i = omega arith

-- an iterator that has returned `i` items
abbrev pub at : Kind → ℕ → SetIterator
at kind i = record { iterated = true; kind = kind; next_index = i }

-- The next item is the live value at the iterator's index; past the last one the iterator ends,
-- for good.
set_iterator_next-live :
    (kind : Kind) (i : ℕ) (es : List ℕ)
    → ((set_iterator_next (at kind i) es).1 ≡ Option.map (item_of kind) (get_elem? (live es) i))
      × (get_elem? (live es) i ≡ none
          → (ws : List ℕ) → (set_iterator_next (set_iterator_next (at kind i) es).0 ws).1 ≡ none)
unfolding set_iterator_next
set_iterator_next-live kind i es =
    let found = seek-live i 0 es (omega arith) ∙ ap (get_elem? (live es)) (sub-zero i) in
    elim (Option-cases (get_elem? (live es) i)) [
      | inl end ↦ (rw (found, end), λ _ ws. rw (found, end))
      | inr (e, here) ↦ (rw (found, here), λ end ws. absurd (clash end here))
    ]
  where
    clash : {e : ℕ} → get_elem? (live es) i ≡ none → get_elem? (live es) i ≡ some e → ⊥
    clash end here = cc

live-append : (xs ys : List ℕ) → live (xs ++ ys) ≡ live xs ++ live ys
unfolding live
live-append [] ys = refl
live-append (x ∷ xs) ys = elim (Bool-cases (is_live x)) [
  | inl lives ↦ rw (lives, live-append xs ys)
  | inr dead ↦ rw (dead, live-append xs ys)
]

is_live-no_iter_value : is_live no_iter_value ≡ false
unfolding is_live no_iter_value is_no_iter_value
is_live-no_iter_value = refl

set_delete-first :
    (mem : Memory) (pre : List ℕ) (x : ℕ) (post : List ℕ) (v : ℕ)
    → All (λ e. same_value_zero mem e v ≡ ok false) pre
    → same_value_zero mem x v ≡ ok true
    → set_delete mem (pre ++ x ∷ post) v ≡ ok (pre ++ no_iter_value ∷ post, true)
unfolding set_delete
set_delete-first mem [] x post v misses hit = rw hit
set_delete-first mem (p ∷ pre) x post v misses hit =
    rw (misses.0, set_delete-first mem pre x post v misses.1 hit)

-- the value at an index past `x` stands one place earlier once `x` is gone
shifted :
    (pre : List ℕ) (x : ℕ) (post : List ℕ) (i : ℕ)
    → is_live x ≡ true
    → length (live pre) < i
    → get_elem? (live (pre ++ no_iter_value ∷ post)) i ≡ get_elem? (live (pre ++ x ∷ post)) (suc i)
shifted pre x post i lives h =
    rw (live-append pre (no_iter_value ∷ post), live-append pre (x ∷ post))
      (unfold live in
        rw (is_live-no_iter_value, lives)
          (get_elem?-append_right (live pre) (live post) i (omega arith)
            ∙ sym (
                get_elem?-append_right (live pre) (x ∷ live post) (suc i) (omega arith)
                ∙ get_elem?-cons x (live post) (suc i - length (live pre)) (omega arith)
                ∙ ap (get_elem? (live post)) (omega arith))))

-- Deleting a value that an iterator has already returned makes the iterator skip the value that
-- was to come next: it returns the one behind.
pub set_delete_skips :
    (mem : Memory) (kind : Kind) (pre : List ℕ) (x : ℕ) (post : List ℕ) (v i : ℕ)
    → All (λ e. same_value_zero mem e v ≡ ok false) pre
    → same_value_zero mem x v ≡ ok true
    → is_live x ≡ true
    → length (live pre) < i
    → (ws : List ℕ) × (set_delete mem (pre ++ x ∷ post) v ≡ ok (ws, true))
      × ((set_iterator_next (at kind i) ws).1
          ≡ (set_iterator_next (at kind (suc i)) (pre ++ x ∷ post)).1)
set_delete_skips mem kind pre x post v i misses hit lives returned = (
  pre ++ no_iter_value ∷ post,
  set_delete-first mem pre x post v misses hit,
  (set_iterator_next-live kind i (pre ++ no_iter_value ∷ post)).0
      ∙ ap (Option.map (item_of kind)) (shifted pre x post i lives returned)
      ∙ sym ((set_iterator_next-live kind (suc i) (pre ++ x ∷ post)).0),
)
