-- ===== src/ObjectHeap/Finite.antt =====
-- [[SetPrototypeOf]] of runtime/ejs-object.c closes no cycle of prototypes.
use mathlib.Core.Path.{subst}
use mathlib.Core.Option.{some-injective}
use echo_js.Base.{
  ℕ, ◌^◌, ◌<◌, ◌≡◌, ap, sym, ◌∙◌, inl, inr, List, [], ◌∷◌, Bool, true, false, not, some, ok,
  ok-injective, ◌==◌, if◌then◌else◌, if-cases, Bool-cases, length, arith,
}
use echo_js.Ejsval.View.{object, encode}
use echo_js.Equality.{Memory}
use echo_js.ObjectHeap.{EjsObject, Heap, store, set_prototype_of}
use echo_js.ObjectHeap.Prototype.{Chain, passes, tests-object, set_prototype_of-Chain}

-- What a write to an object changes.
pub store-lookup :
    (heap : Heap) (q : ℕ) (o : EjsObject)
    → q < 2 ^ 47
    → (p : ℕ) → store heap (encode (object q)) o p ≡ (if p == q then o else heap p)
unfolding store
store-lookup heap q o h p =
    ap (λ (a : ℕ). if p == a then o else heap p) (ground (arith, tests-object q h))

-- Every chain that is finite before is finite after.
abbrev pub StaysFinite : Heap → Heap → Type 0
StaysFinite heap heap' = (v : ℕ) (rs : List ℕ) → Chain heap v rs → (ts : List ℕ) × Chain heap' v ts

unchanged-StaysFinite : (heap : Heap) → StaysFinite heap heap
unchanged-StaysFinite heap v rs c = (rs, c)

module _ (heap : Heap) (q : ℕ) (o : EjsObject) (word : q < 2 ^ 47) where
  here : (p : ℕ) → (p == q) ≡ true → store heap (encode (object q)) o p ≡ o
  here p h = ground (arith, store-lookup heap q o word p)

  other : (p : ℕ) → (p == q) ≡ false → store heap (encode (object q)) o p ≡ heap p
  other p h = ground (arith, store-lookup heap q o word p)

  -- A chain that does not pass the object is as it was.
  store-Chain :
      (v : ℕ) (ps : List ℕ)
      → passes q ps ≡ false
      → Chain heap v ps
      → Chain (store heap (encode (object q)) o) v ps
  store-Chain v [] h c = c
  store-Chain v (p ∷ ps) h c = (
    c.0,
    c.1,
    subst (λ (a : EjsObject). Chain (store heap (encode (object q)) o) a.proto ps)
        (sym (other p (ground arith))) (store-Chain (heap p).proto ps (ground arith) c.2),
  )

  module _ (ps : List ℕ) (chain : Chain heap o.proto ps) (open_chain : passes q ps ≡ false) where
    relinked : StaysFinite heap (store heap (encode (object q)) o)
    relinked v [] c = ([], c)
    relinked v (p ∷ rs) c =
        let rest = relinked (heap p).proto rs c.2 in
        elim (Bool-cases (p == q)) [
          | inl h ↦ (
            p ∷ ps,
            (
              c.0,
              c.1,
              subst (λ (a : EjsObject). Chain (store heap (encode (object q)) o) a.proto ps)
                  (sym (here p h)) (store-Chain o.proto ps open_chain chain),
            ),
          )
          | inr h ↦ (
            p ∷ rest.0,
            (
              c.0,
              c.1,
              subst (λ (a : EjsObject). Chain (store heap (encode (object q)) o) a.proto rest.0)
                  (sym (other p h)) rest.1,
            ),
          )
        ]

module _ (mem : Memory) (heap : Heap) (q : ℕ) (ps qs : List ℕ) (V : ℕ) (fuel : ℕ)
    (word : q < 2 ^ 47) (chain : Chain heap V ps) (own : Chain heap (heap q).proto qs)
    (enough : length ps < fuel) where
  linked : Heap
  linked = store heap (encode (object q)) (record (heap q) { proto = V })

  outcome : Heap × Bool
  outcome =
      if V == (heap q).proto
      then (heap, true)
      else if not (heap q).extensible
      then (heap, false)
      else if passes q ps
      then (heap, false)
      else (linked, true)

  outcome-StaysFinite : StaysFinite heap outcome.0
  unfolding outcome linked
  outcome-StaysFinite =
      let P = λ (r : Heap × Bool). StaysFinite heap r.0 in
      let same = unchanged-StaysFinite heap in
      if-cases P (V == (heap q).proto) (λ a. same)
        (λ a.
          if-cases P (not (heap q).extensible) (λ b. same)
            (λ b.
              if-cases P (passes q ps) (λ c. same)
                (λ c. relinked heap q (record (heap q) { proto = V }) word ps chain c)))

  -- An object at an address and a value that start finite chains of prototypes, with more fuel
  -- than the value's chain is long: after [[SetPrototypeOf]] every chain of prototypes that was
  -- finite, of whatever object, is finite still.
  pub set_prototype_of-StaysFinite :
      (heap' : Heap) (answer : Bool)
      → set_prototype_of mem fuel heap (encode (object q)) V ≡ some (ok (heap', answer))
      → (v : ℕ) (rs : List ℕ) → Chain heap v rs
      → (ts : List ℕ) × Chain heap' v ts
  unfolding outcome linked
  set_prototype_of-StaysFinite heap' answer e =
      let run = sym (set_prototype_of-Chain mem heap q ps qs V fuel word chain own enough) ∙ e in
      subst (λ (r : Heap × Bool). StaysFinite heap r.0)
        (ok-injective outcome (heap', answer)
          (some-injective (ok outcome) (ok (heap', answer)) run))
        outcome-StaysFinite
