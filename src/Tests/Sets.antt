-- ===== src/Tests/Sets.antt =====
-- runtime/ejs-set.c at concrete sets.
use echo_js.Base.{ℕ, ◌≡◌, refl, List, [], ◌∷◌, Bool, true, false, none, ok, arith}
use echo_js.Ejsval.View.{double, encode}
use echo_js.Equality.{Memory}
use echo_js.MapData.Iterator.{value_kind}
use echo_js.SetData.{set_delete}
use echo_js.SetData.Membership.{Deleted, set_delete-Deleted}
use echo_js.SetData.Iterator.{set_iterator_next}
use echo_js.SetData.Iteration.{at, set_delete_skips}
use echo_js.Tests.Opened.{mapping, setting}

abbrev mem : Memory
mem p = none

abbrev one : ℕ
one = 0x3FF0000000000000

abbrev two : ℕ
two = 0x4000000000000000

abbrev three : ℕ
three = 0x4008000000000000

set_delete-Deleted_example :
    (ws : List ℕ) × (found : Bool) × (set_delete mem (one ∷ two ∷ []) (encode (double two))
      ≡ ok (ws, found))
    × Deleted mem (one ∷ two ∷ []) (encode (double two)) ws found
unfolding mapping setting
set_delete-Deleted_example =
    set_delete-Deleted mem (one ∷ two ∷ []) (double two) (omega arith) tt
      ((false, refl), ((true, refl), tt)) ((λ h. cc), ((λ h. refl), tt))
      ((λ h. cc), ((λ h. cc), tt))

-- 1 has been returned; after it is deleted the next item is 3, and 2 is never returned
set_delete_skips_example :
    (ws : List ℕ) × (set_delete mem (one ∷ two ∷ three ∷ []) one ≡ ok (ws, true))
    × ((set_iterator_next (at value_kind 1) ws).1
        ≡ (set_iterator_next (at value_kind 2) (one ∷ two ∷ three ∷ [])).1)
unfolding mapping setting
set_delete_skips_example =
    set_delete_skips mem value_kind [] one (two ∷ three ∷ []) one 1 tt refl refl (omega arith)
