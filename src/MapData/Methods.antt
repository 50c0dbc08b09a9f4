-- ===== src/MapData/Methods.antt =====
-- The methods of Map.prototype in runtime/ejs-map.c, with the tests of their receiver. The heap
-- has the class of every object, and the entries of the Maps.
use echo_js.Base.{
  ℕ, ◌≡◌, ◌≢◌, refl, ap, ◌∙◌, List, [], ◌∷◌, Bool, true, false, Outcome, ok, type_error, aborted,
  ◌>>=◌, ◌>>◌, require, ◌==◌, ==_refl, ==_false, if◌then◌else◌, arith,
}
use echo_js.Ejsval.{is_object, to_pointer}
use echo_js.Ejsval.View.{View, Fits, encode}
use echo_js.Equality.{Memory}
use echo_js.Equality.Keys.{IsKey}
use echo_js.Objects.{Class, map_object, has_class, undefined_word, argument, bool_word}
use echo_js.MapData.{Entry, map_get, map_has, map_set, map_delete, map_clear, map_size}
use echo_js.MapData.Lookup.{Answers, map_set-Stored}

pub record Heap : Type 0 where
  pub class_at : ℕ → Class
  pub maps : ℕ → List Entry

-- EJSVAL_IS_MAP
abbrev pub is_map : Heap → ℕ → Bool
is_map heap this = has_class heap.class_at map_object this

-- EJSVAL_TO_MAP
unfoldable pub entries_at : Heap → ℕ → List Entry
entries_at heap this = heap.maps (to_pointer this)

-- the Map at `this` with other entries
unfoldable pub write_entries : Heap → ℕ → List Entry → Heap
write_entries heap this es = record heap {
  maps = λ p. if p == to_pointer this then es else heap.maps p;
}

-- steps 2 and 3 of most methods
unfoldable pub check_map : Heap → ℕ → Outcome (Unit {0})
unfolding has_class
check_map heap this = require (is_object this) >> require (is_map heap this)

-- Map.prototype.clear has step 2 only: the memory of an object of another class is then read as
-- a Map.
unfoldable pub check_object : Heap → ℕ → Outcome (Unit {0})
unfolding has_class
check_object heap this = require (is_object this) >> (if is_map heap this then ok tt else aborted)

module _ (mem : Memory) where
  unfoldable pub map_prototype_get : Heap → ℕ → List ℕ → Outcome ℕ
  unfolding check_map map_get entries_at
  map_prototype_get heap this args =
      check_map heap this >> map_get mem (entries_at heap this) (argument 0 args)

  unfoldable pub map_prototype_has : Heap → ℕ → List ℕ → Outcome ℕ
  unfolding check_map map_has entries_at
  map_prototype_has heap this args =
      check_map heap this
      >> (map_has mem (entries_at heap this) (argument 0 args) >>= λ found. ok (bool_word found))

  unfoldable pub map_prototype_set : Heap → ℕ → List ℕ → Outcome (Heap × ℕ)
  unfolding check_map map_set entries_at write_entries
  map_prototype_set heap this args =
      check_map heap this
      >> (map_set mem (entries_at heap this) (argument 0 args) (argument 1 args) >>= λ es.
          ok (write_entries heap this es, this))

unfoldable pub map_prototype_delete : Heap → ℕ → List ℕ → Outcome (Heap × ℕ)
unfolding check_map map_delete entries_at write_entries
map_prototype_delete heap this args =
    check_map heap this
    >> (let (es, found) = map_delete (entries_at heap this) (argument 0 args) in
        ok (write_entries heap this es, bool_word found))

unfoldable pub map_prototype_clear : Heap → ℕ → Outcome (Heap × ℕ)
unfolding check_object map_clear entries_at write_entries
map_prototype_clear heap this =
    check_object heap this
    >> ok (write_entries heap this (map_clear (entries_at heap this)), undefined_word)

-- get Map.prototype.size, before the count is made a double; it tests nothing, and reads whatever
-- the receiver's payload points at as a Map
unfoldable pub map_prototype_get_size : Heap → ℕ → Outcome ℕ
unfolding has_class map_size entries_at
map_prototype_get_size heap this =
    if is_map heap this then ok (map_size (entries_at heap this)) else aborted

checked : (heap : Heap) (this : ℕ) → is_map heap this ≡ true → check_map heap this ≡ ok tt
unfolding check_map has_class
checked heap this h = ground arith

unchecked : (heap : Heap) (this : ℕ) → is_map heap this ≡ false → check_map heap this ≡ type_error
unfolding check_map has_class
unchecked heap this h = ground arith

entries_at-write :
    (heap : Heap) (this : ℕ) (es : List Entry) → entries_at (write_entries heap this es) this ≡ es
unfolding entries_at write_entries
entries_at-write heap this es =
    ap (λ (b : Bool). if b then es else heap.maps (to_pointer this)) (==_refl (to_pointer this))

module _ (mem : Memory) where
  -- On a receiver that is no Map, get, has, set and delete throw a TypeError, whatever their
  -- arguments are.
  methods_refuse :
      (heap : Heap) (this : ℕ) (args : List ℕ)
      → is_map heap this ≡ false
      → (map_prototype_get mem heap this args ≡ type_error)
        × (map_prototype_has mem heap this args ≡ type_error)
        × (map_prototype_set mem heap this args ≡ type_error)
        × (map_prototype_delete heap this args ≡ type_error)
  unfolding map_prototype_get map_prototype_has map_prototype_set map_prototype_delete
  methods_refuse heap this args h = let e = unchecked heap this h in (rw e, rw e, rw e, rw e)

  -- After Map.prototype.set on a Map, for a key in range, no symbol, that can be compared with
  -- every entry, which returns its receiver, Map.prototype.get of that key returns the value, and
  -- Map.prototype.has true; and the Maps at other addresses have the entries they had.
  map_prototype_get-set :
      (heap : Heap) (this v : ℕ) (w : View)
      → is_map heap this ≡ true
      → Fits w
      → IsKey mem w
      → Answers mem (encode w) (entries_at heap this)
      → (heap' : Heap) × (map_prototype_set mem heap this (encode w ∷ v ∷ []) ≡ ok (heap', this))
        × (map_prototype_get mem heap' this (encode w ∷ []) ≡ ok v)
        × (map_prototype_has mem heap' this (encode w ∷ []) ≡ ok (bool_word true))
        × ((p : ℕ) → p ≢ to_pointer this → heap'.maps p ≡ heap.maps p)
  unfolding map_prototype_set map_prototype_get map_prototype_has
  map_prototype_get-set heap this v w h fits is_key answers =
      let (es, run, stored) = map_set-Stored mem (entries_at heap this) v w fits is_key answers in
      let heap' = write_entries heap this es in
      (
        heap',
        rw (checked heap this h, run) refl,
        ap (λ u. u >> map_get mem (entries_at heap' this) (encode w)) (checked heap' this h)
            ∙ ap (λ a. map_get mem a (encode w)) (entries_at-write heap this es)
            ∙ stored.reads,
        ap (λ u. u >> (map_has mem (entries_at heap' this) (encode w) >>= λ b. ok (bool_word b)))
              (checked heap' this h)
            ∙ ap (λ a. map_has mem a (encode w) >>= λ b. ok (bool_word b))
                (entries_at-write heap this es)
            ∙ ap (λ o. o >>= λ b. ok (bool_word b)) stored.present,
        (λ p apart.
            ap (λ (b : Bool). if b then es else heap.maps p) (==_false p (to_pointer this) apart)),
      )
