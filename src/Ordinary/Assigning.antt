-- ===== src/Ordinary/Assigning.antt =====
-- [[Set]] of runtime/ejs-object.c along the prototypes, and the [[Get]] after it.
use mathlib.Core.Path.{subst}
use mathlib.Core.Option.{some-injective}
use echo_js.Base.{
  ℕ, zero, suc, ◌^◌, ◌<◌, ◌≤◌, ◌≡◌, refl, ap, sym, ◌∙◌, List, [], ◌∷◌, Bool, true, false, not,
  Option, none, some, Outcome, ok, ◌>>=◌, ok-injective, type_error_ne_ok, aborted_ne_ok, if-cases,
  length, arith,
}
use echo_js.Ejsval.{is_null, is_object}
use echo_js.Ejsval.View.{object, encode}
use echo_js.Equality.{Memory}
use echo_js.PropertyMap.{PropertyKeys}
use echo_js.PropertyMap.Valid.{IsValid}
use echo_js.Descriptors.{PropertyDesc, or_false, is_data_descriptor}
use echo_js.ObjectHeap.{Heap, object_at, get_prototype_of}
use echo_js.Ordinary.{
  is_property_key, to_property_key, is_proto_name, value, get, define, define_value_property,
  get_own_property, undefined_desc, value_desc, Assignment, assigned, call_setter, assign, set,
}
use echo_js.ObjectHeap.Prototype.{Chain, tests-object}
use echo_js.Ordinary.Lookup.{inherited, Tabled, get_own_property-own}
use echo_js.Ordinary.Written.{Written}
use echo_js.Ordinary.Values.{get-value, Assigned, define-Assigned}

abbrev pub or_undefined : Option PropertyDesc → PropertyDesc
or_undefined none = undefined_desc
or_undefined (some d) = d

module _ (keys : PropertyKeys ℕ) (to_string : ℕ → ℕ) where
  -- Along a finite chain of prototypes that starts with the object and whose objects have valid
  -- tables, with at least as much fuel as it has objects, for a property key: [[Set]] acts on the
  -- first property of the name, and on a fresh data property if none of the objects has one.
  pub set-inherited :
      (heap : Heap) (P V receiver : ℕ)
      → to_property_key to_string P ≡ P
      → (fuel O p : ℕ) (ps : List ℕ) → Chain heap O (p ∷ ps)
      → Tabled keys heap (p ∷ ps)
      → length (p ∷ ps) ≤ fuel
      → set keys to_string fuel heap O P V receiver
        ≡ some (
            assign keys to_string heap (or_undefined (inherited keys heap (p ∷ ps) P)) P V receiver)
  unfolding set get_prototype_of object_at is_null
  set-inherited heap P V receiver n zero O p ps c v h = absurd (ground arith)
  set-inherited heap P V receiver n (suc fuel) O p [] c v h =
      ground (arith, n, tests-object p c.1, get_own_property-own keys to_string heap p P c.1 v.0)
  set-inherited heap P V receiver n (suc fuel) O p (q ∷ ps) c v h = ground (
    arith,
    n,
    tests-object p c.1,
    tests-object q c.2.1,
    get_own_property-own keys to_string heap p P c.1 v.0,
    set-inherited heap P V receiver n fuel (heap p).proto q ps c.2 v.1,
  )

module _ (keys : PropertyKeys ℕ) (to_string : ℕ → ℕ) (heap : Heap) (p P : ℕ) (ps : List ℕ)
    (word : p < 2 ^ 47) (valid : IsValid keys (heap p).properties) (key : is_property_key P ≡ true)
    (kept : to_property_key to_string P ≡ P) where
  answer_of : Assignment → Bool
  answer_of (assigned h b) = b
  answer_of (call_setter f r V) = false

  heap_of : Assignment → Heap
  heap_of (assigned h b) = h
  heap_of (call_setter f r V) = heap

  two_answers : (h h' : Heap) → ¬ (ok (assigned h false) ≡ ok (assigned h' true))
  unfolding answer_of
  two_answers h h' e =
      let same : false ≡ true =
        ap answer_of (ok-injective (assigned h false) (assigned h' true) e) in
      ground (arith, same)

  -- What an assignment on the receiver comes to, once the property that it found is known to be a
  -- data property.
  AssignedIfTrue : ℕ → Outcome Assignment → Type 0
  AssignedIfTrue V r =
      (heap' : Heap)
      → r ≡ ok (assigned heap' true)
      → Assigned keys to_string heap p P word valid key kept heap' V

  refused-AssignedIfTrue : (V : ℕ) → AssignedIfTrue V (ok (assigned heap false))
  unfolding AssignedIfTrue
  refused-AssignedIfTrue V heap' e = absurd (two_answers heap heap' e)

  defined-AssignedIfTrue :
      (V : ℕ) (desc : PropertyDesc)
      → (desc.has_value ≡ true) × (desc.value_or_getter ≡ V)
      → (r : Outcome (Heap × Bool))
      → define keys to_string heap (encode (object p)) P desc false ≡ r
      → AssignedIfTrue V (r >>= λ a. ok (assigned a.0 a.1))
  unfolding AssignedIfTrue heap_of
  defined-AssignedIfTrue V desc has (ok (h, true)) e heap' f =
      subst (λ (g : Heap). Assigned keys to_string heap p P word valid key kept g V)
        (ap heap_of (ok-injective (assigned h true) (assigned heap' true) f))
        (define-Assigned keys to_string heap p P word valid key kept h desc V has e)
  defined-AssignedIfTrue V desc has (ok (h, false)) e heap' f = absurd (two_answers h heap' f)
  defined-AssignedIfTrue V desc has Outcome.type_error e heap' f = absurd (type_error_ne_ok _ f)
  defined-AssignedIfTrue V desc has Outcome.aborted e heap' f = absurd (aborted_ne_ok _ f)

  onto : ℕ → Option PropertyDesc → Outcome Assignment
  onto V o = elim o [
    | some existing ↦
        define keys to_string heap (encode (object p)) P (value_desc V) false
        >>= (λ r. ok (assigned r.0 r.1))
    | none ↦
        define_value_property keys to_string heap (encode (object p)) P V true true true
        >>= (λ r. ok (assigned r.0 r.1))
  ]

  onto-AssignedIfTrue : (V : ℕ) (o : Option PropertyDesc) → AssignedIfTrue V (onto V o)
  unfolding onto define_value_property
  onto-AssignedIfTrue V none = defined-AssignedIfTrue V _ (refl, refl) _ refl
  onto-AssignedIfTrue V (some existing) = defined-AssignedIfTrue V _ (refl, refl) _ refl

  not_data :
      (found : PropertyDesc)
      → is_data_descriptor found ≡ true
      → ¬ (is_data_descriptor found ≡ false)
  not_data found d a = ground (arith, d, a)

  assign-AssignedIfTrue :
      (found : PropertyDesc) (V : ℕ)
      → is_data_descriptor found ≡ true
      → AssignedIfTrue V (assign keys to_string heap found P V (encode (object p)))
  unfolding assign onto
  assign-AssignedIfTrue found V d =
      if-cases (AssignedIfTrue V) (is_data_descriptor found)
        (λ a.
          if-cases (AssignedIfTrue V) (not (or_false found.writable))
            (λ b. refused-AssignedIfTrue V)
            (λ b.
              if-cases (AssignedIfTrue V) (not (is_object (encode (object p))))
                (λ c. refused-AssignedIfTrue V)
                (λ c.
                  onto-AssignedIfTrue V
                    (get_own_property keys to_string heap (encode (object p)) P))))
        (λ a. absurd (not_data found d a))

  -- A property key other than "__proto__", and an object with a valid table that starts a finite
  -- chain of prototypes with valid tables: if [[Set]] on the object answers true, with at least
  -- as much fuel as the chain has objects, where the first property of the name on the chain is a
  -- data property or there is none, then [[Get]] of the name from the object returns the value
  -- that was set, and the other properties of the object, its prototype and all the other objects
  -- are as before.
  pub get-set :
      (mem : Memory) (V receiver fuel n : ℕ) (heap' : Heap)
      → is_proto_name mem P ≡ ok false
      → Chain heap (encode (object p)) (p ∷ ps)
      → Tabled keys heap (p ∷ ps)
      → length (p ∷ ps) ≤ fuel
      → is_data_descriptor (or_undefined (inherited keys heap (p ∷ ps) P)) ≡ true
      → set keys to_string fuel heap (encode (object p)) P V (encode (object p))
        ≡ some (ok (assigned heap' true))
      → (get keys to_string mem (suc n) heap' (encode (object p)) P receiver ≡ some (ok (value V)))
        × ((d : PropertyDesc) × Written keys heap heap' p P (some d))
  unfolding AssignedIfTrue
  get-set mem V receiver fuel n heap' other c v enough is_data e =
      let found = or_undefined (inherited keys heap (p ∷ ps) P) in
      let run = some-injective _ _ (
        sym (set-inherited keys to_string heap P V (encode (object p)) kept fuel _ p ps c v enough)
        ∙ e) in
      let a = assign-AssignedIfTrue found V is_data heap' run in
      (
        get-value keys to_string mem heap' p P V a.0 word a.2.0 kept other a.2.1 a.1 n receiver,
        (a.0, a.2),
      )
