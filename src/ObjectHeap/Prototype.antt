-- ===== src/ObjectHeap/Prototype.antt =====
-- [[SetPrototypeOf]] of an ordinary object, against the chain of the prototypes as a list.
use echo_js.Base.{
  ℕ, zero, suc, ◌+◌, ◌*◌, ◌^◌, ◌<◌, ◌≡◌, refl, List, [], ◌∷◌, Bool, true, false, not, ◌||◌, some,
  ok, ◌==◌, if◌then◌else◌, length, arith, or_of_fields_flipped, and_mask,
}
use echo_js.Ejsval.{
  to_tag, is_double, is_undefined, is_null, is_string, is_boolean, is_symbol, is_object, to_pointer,
}
use echo_js.Ejsval.View.{object, encode}
use echo_js.Equality.{Memory, same_value}
use echo_js.Objects.{null_word}
use echo_js.ObjectHeap.{
  Heap, object_at, store, get_prototype_of, is_behind, link_prototype, set_prototype_of,
}

-- The objects behind a word, each the prototype of the one before, up to null.
abbrev pub Chain : Heap → ℕ → List ℕ → Type 0
Chain heap v [] = v ≡ null_word
Chain heap v (p ∷ ps) = (v ≡ encode (object p)) × (p < 2 ^ 47) × Chain heap (heap p).proto ps

abbrev pub passes : ℕ → List ℕ → Bool
passes q [] = false
passes q (p ∷ ps) = let later = passes q ps in if p == q then true else later

pub tests-object :
    (p : ℕ)
    → p < 2 ^ 47
    → (to_tag (encode (object p)) ≡ 0x1FFF9)
      × (is_double (encode (object p)) ≡ false)
      × (is_undefined (encode (object p)) ≡ false)
      × (is_null (encode (object p)) ≡ false)
      × (is_string (encode (object p)) ≡ false)
      × (is_boolean (encode (object p)) ≡ false)
      × (is_symbol (encode (object p)) ≡ false)
      × (is_object (encode (object p)) ≡ true)
      × (to_pointer (encode (object p)) ≡ p)
unfolding encode to_tag is_double is_undefined is_null is_string is_boolean is_symbol is_object
    to_pointer
tests-object p h =
    let box = or_of_fields_flipped 47 0x1FFF9 p h in
    (
      ground (arith, box),
      ground (arith, box),
      ground (arith, box),
      ground (arith, box),
      ground (arith, box),
      ground (arith, box),
      ground (arith, box),
      ground (arith, box),
      ground (arith, box, and_mask 47 (0x1FFF9 * 2 ^ 47 + p)),
    )

same_word :
    (p q : ℕ) → p < 2 ^ 47 → q < 2 ^ 47 → (encode (object p) == encode (object q)) ≡ (p == q)
unfolding encode
same_word p q h k =
    ground (arith, or_of_fields_flipped 47 0x1FFF9 p h, or_of_fields_flipped 47 0x1FFF9 q k)

-- SameValue of two objects compares the addresses.
same_value-object :
    (mem : Memory) (p q : ℕ)
    → p < 2 ^ 47
    → q < 2 ^ 47
    → same_value mem (encode (object p)) (encode (object q)) ≡ ok (p == q)
unfolding same_value
same_value-object mem p q h k =
    ground (arith, tests-object p h, tests-object q k, same_word p q h k)

same_value-null : (mem : Memory) → same_value mem null_word null_word ≡ ok true
unfolding same_value to_tag is_undefined is_null
same_value-null mem = refl

same_value-null_object :
    (mem : Memory) (p : ℕ) → p < 2 ^ 47 → same_value mem null_word (encode (object p)) ≡ ok false
unfolding same_value to_tag
same_value-null_object mem p h = ground (arith, tests-object p h)

same_value-object_null :
    (mem : Memory) (p : ℕ) → p < 2 ^ 47 → same_value mem (encode (object p)) null_word ≡ ok false
unfolding same_value to_tag
same_value-object_null mem p h = ground (arith, tests-object p h)

-- The walk answers whether the chain passes the object.
is_behind_lem :
    (mem : Memory) (heap : Heap) (q : ℕ)
    → q < 2 ^ 47
    → (fuel v : ℕ) (ps : List ℕ) → Chain heap v ps
    → length ps < fuel
    → is_behind mem heap (encode (object q)) fuel v ≡ some (ok (passes q ps))
unfolding is_behind get_prototype_of object_at is_null
is_behind_lem mem heap q k zero v ps c h = absurd (ground arith)
is_behind_lem mem heap q k (suc fuel) v [] c h = ground arith
is_behind_lem mem heap q k (suc fuel) v (p ∷ ps) c h = ground (
  arith,
  tests-object p c.1,
  same_value-object mem p q c.1 k,
  is_behind_lem mem heap q k fuel (heap p).proto ps c.2,
)

-- A word that starts a chain is an object or null, and SameValue tells two of them apart.
starts_known :
    (heap : Heap) (v : ℕ) (ps : List ℕ) → Chain heap v ps → (is_object v || is_null v) ≡ true
unfolding is_null
starts_known heap v [] c = ground arith
starts_known heap v (p ∷ ps) c = ground (arith, tests-object p c.1)

same_value-starts :
    (mem : Memory) (heap : Heap) (v w : ℕ) (ps qs : List ℕ)
    → Chain heap v ps
    → Chain heap w qs
    → same_value mem v w ≡ ok (v == w)
unfolding is_null
same_value-starts mem heap v w [] [] c d = ground (arith, same_value-null mem)
same_value-starts mem heap v w [] (q ∷ qs) c d =
    ground (arith, same_value-null_object mem q d.1, tests-object q d.1)
same_value-starts mem heap v w (p ∷ ps) [] c d =
    ground (arith, same_value-object_null mem p c.1, tests-object p c.1)
same_value-starts mem heap v w (p ∷ ps) (q ∷ qs) c d =
    ground (arith, same_value-object mem p q c.1 d.1, same_word p q c.1 d.1)

module _ (mem : Memory) (heap : Heap) (q : ℕ) (ps qs : List ℕ) (V : ℕ) (fuel : ℕ)
    (word : q < 2 ^ 47) (chain : Chain heap V ps) (own : Chain heap (heap q).proto qs)
    (enough : length ps < fuel) where
  -- An object at an address and a value that is null or starts a finite chain of prototypes: with
  -- more fuel than that chain is long, and where the object has a finite chain itself,
  -- [[SetPrototypeOf]] ends. It answers true and changes nothing if the value is the prototype
  -- already, else false if the object is not extensible or is on the chain of the value, and else
  -- true with the value as the prototype.
  pub set_prototype_of-Chain :
      set_prototype_of mem fuel heap (encode (object q)) V
      ≡ some (
          ok (
            if V == (heap q).proto
            then (heap, true)
            else if not (heap q).extensible
            then (heap, false)
            else if passes q ps
            then (heap, false)
            else (store heap (encode (object q)) (record (heap q) { proto = V }), true)))
  unfolding set_prototype_of object_at get_prototype_of link_prototype
  set_prototype_of-Chain = ground (
    arith,
    tests-object q word,
    starts_known heap V ps chain,
    same_value-starts mem heap V (heap q).proto ps qs chain own,
    is_behind_lem mem heap q word fuel V ps chain enough,
  )
