-- ===== src/SetData/Membership.antt =====
-- Adding, deleting and testing.
use echo_js.Base.{
  ℕ, suc, ◌+◌, ◌≡◌, refl, sym, ap, ◌∙◌, inl, inr, Bool-cases, List, [], ◌∷◌, ◌++◌, Bool, true,
  false, ok, arith, if◌then◌else◌, All, length,
}
use echo_js.Ejsval.View.{View, encode, Fits}
use echo_js.Equality.{Memory, same_value_zero}
use echo_js.Equality.Keys.{IsKey, same_value_zero-no_iter_value}
use echo_js.Objects.{no_iter_value, is_no_iter_value}
use echo_js.SetData.{is_live, set_size, set_delete, set_has}

is_live-no_iter_value : is_live no_iter_value ≡ false
unfolding is_live no_iter_value is_no_iter_value
is_live-no_iter_value = refl

-- The empty elements hold the marker and nothing else.
abbrev pub IsMarked : List ℕ → Type 0
IsMarked = All (λ e. is_live e ≡ false → e ≡ no_iter_value)

module _ (mem : Memory) where
  -- `value` can be compared with every element: no test of a loop aborts.
  abbrev pub Answers : ℕ → List ℕ → Type 0
  Answers value = All (λ e. (b : Bool) × (same_value_zero mem e value ≡ ok b))

  -- What Set.prototype.add leaves: the value is a member, counted once, and nothing moved.
  pub record Added (es : List ℕ) (value stored : ℕ) (ws : List ℕ) : Type 0 where
    pub present : set_has mem ws value ≡ ok true
    pub before : Bool
    pub was : set_has mem es value ≡ ok before
    pub counted : set_size ws ≡ (if before then set_size es else set_size es + 1)
    pub order : ws ≡ (if before then es else es ++ stored ∷ [])

  -- No two elements answer to the value.
  abbrev pub AtMostOnce : ℕ → List ℕ → Type 0
  AtMostOnce value [] = Unit
  AtMostOnce value (e ∷ es) =
      (same_value_zero mem e value ≡ ok true → set_has mem es value ≡ ok false)
      × AtMostOnce value es

  -- What Set.prototype.delete returns and leaves.
  pub record Deleted (es : List ℕ) (value : ℕ) (ws : List ℕ) (found : Bool) : Type 0 where
    pub was : set_has mem es value ≡ ok found
    pub gone : set_has mem ws value ≡ ok false
    pub counted : set_size ws + (if found then 1 else 0) ≡ set_size es
    pub same_length : length ws ≡ length es

  module _ (value : ℕ) (cleared : same_value_zero mem no_iter_value value ≡ ok false) where
    -- an element that answers to the value is no empty one
    live_of_hit :
        (e : ℕ)
        → same_value_zero mem e value ≡ ok true
        → (is_live e ≡ false → e ≡ no_iter_value)
        → is_live e ≡ true
    live_of_hit e hit marked = elim (Bool-cases (is_live e)) [
      | inl lives ↦ lives
      | inr dead ↦
          absurd
            (false_hit (sym hit ∙ ap (λ x. same_value_zero mem x value) (marked dead) ∙ cleared))
    ]
      where
        false_hit : ok true ≡ ok false → ⊥
        false_hit h = cc

    Deleted-cons :
        (e : ℕ) (es ws : List ℕ) (found : Bool)
        → same_value_zero mem e value ≡ ok false
        → Deleted es value ws found
        → Deleted (e ∷ es) value (e ∷ ws) found
    unfolding set_has set_size
    Deleted-cons e es ws found miss d = record {
      was = rw miss d.was;
      gone = rw miss d.gone;
      counted = ground (arith, d.counted);
      same_length = ap suc d.same_length;
    }

    Deleted-here :
        (e : ℕ) (es : List ℕ)
        → same_value_zero mem e value ≡ ok true
        → is_live e ≡ true
        → set_has mem es value ≡ ok false
        → Deleted (e ∷ es) value (no_iter_value ∷ es) true
    unfolding set_has set_size
    Deleted-here e es hit lives rest = record {
      was = rw hit;
      gone = rw cleared rest;
      counted = rw (is_live-no_iter_value, lives);
      same_length = refl;
    }

    delete_total :
        (es : List ℕ)
        → Answers value es
        → AtMostOnce value es
        → IsMarked es
        → (ws : List ℕ) × (found : Bool) × (set_delete mem es value ≡ ok (ws, found))
          × Deleted es value ws found
    unfolding set_delete
    delete_total [] answers once marked = (
      [],
      false,
      refl,
      (unfold set_has set_size in
          record { was = refl; gone = refl; counted = refl; same_length = refl }),
    )
    delete_total (e ∷ es) ((true, hit), answers) once marked = (
      no_iter_value ∷ es,
      true,
      rw hit,
      Deleted-here e es hit (live_of_hit e hit marked.0) (once.0 hit),
    )
    delete_total (e ∷ es) ((false, miss), answers) once marked =
        let (ws, found, run, d) = delete_total es answers once.1 marked.1 in
        (e ∷ ws, found, rw (miss, run), Deleted-cons e es ws found miss d)

  -- Set.prototype.delete, for a key in range, no symbol, that can be compared with every element
  -- and answers to one at most, on a chain whose empty elements hold the one marker: it returns
  -- whether the key was a member, and afterwards it is none; the size counts it no more, and the
  -- chain keeps its length.
  pub set_delete-Deleted :
      (es : List ℕ) (w : View)
      → Fits w
      → IsKey mem w
      → Answers (encode w) es
      → AtMostOnce (encode w) es
      → IsMarked es
      → (ws : List ℕ) × (found : Bool) × (set_delete mem es (encode w) ≡ ok (ws, found))
        × Deleted es (encode w) ws found
  set_delete-Deleted es w fits is_key =
      delete_total (encode w) (same_value_zero-no_iter_value mem w fits is_key) es
