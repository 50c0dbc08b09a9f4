-- ===== src/Ordinary/Written.antt =====
-- What a write to one property of an ordinary object changes on the heap of runtime/ejs-object.c.
use mathlib.Core.Path.{subst}
use echo_js.Base.{ℕ, ◌^◌, ◌<◌, ◌≡◌, refl, ap, sym, ◌∙◌, false, Option, ◌==◌, arith}
use echo_js.Ejsval.View.{object, encode}
use echo_js.PropertyMap.{PropertyKeys, PropertyMap}
use echo_js.PropertyMap.Valid.{IsValid}
use echo_js.PropertyMap.Abstract
use echo_js.PropertyMap.Readback.{Rewritten}
use echo_js.Descriptors.{PropertyDesc}
use echo_js.ObjectHeap.{EjsObject, Heap, object_at, store}
use echo_js.ObjectHeap.Prototype.{tests-object}
use echo_js.ObjectHeap.Finite.{store-lookup}
use echo_js.Ordinary.Lookup.{own}

pub object_at-encode :
    (heap : Heap) (p : ℕ) → p < 2 ^ 47 → object_at heap (encode (object p)) ≡ heap p
unfolding object_at
object_at-encode heap p h = ap heap (ground (arith, tests-object p h))

module _ (keys : PropertyKeys ℕ) where
  -- The heap `heap'` is as `heap`, but for what the object at `p` holds for `key`.
  abbrev pub Written : Heap → Heap → ℕ → ℕ → Option PropertyDesc → Type 0
  Written heap heap' p key d =
      IsValid keys (heap' p).properties
      × (own keys heap' p key ≡ d)
      × ((other : ℕ) → keys.same key other ≡ false → own keys heap' p other ≡ own keys heap p other)
      × ((heap' p).proto ≡ (heap p).proto)
      × ((heap' p).extensible ≡ (heap p).extensible)
      × ((r : ℕ) → (r == p) ≡ false → heap' r ≡ heap r)

  module _ (heap : Heap) (p : ℕ) (word : p < 2 ^ 47) where
    unfoldable pub with_properties : PropertyMap ℕ PropertyDesc → Heap
    with_properties m =
        store heap (encode (object p))
          (record (object_at heap (encode (object p))) { properties = m })

    at : (m : PropertyMap ℕ PropertyDesc) → with_properties m p ≡ record (heap p) { properties = m }
    unfolding with_properties
    at m =
        ap (λ (o : EjsObject). store heap (encode (object p)) (record o { properties = m }) p)
          (object_at-encode heap p word)
        ∙ ground (arith, store-lookup heap p (record (heap p) { properties = m }) word p)

    elsewhere :
        (m : PropertyMap ℕ PropertyDesc) (r : ℕ) → (r == p) ≡ false → with_properties m r ≡ heap r
    unfolding with_properties
    elsewhere m r h = ground (
      arith,
      store-lookup heap p (record (object_at heap (encode (object p))) { properties = m }) word r,
    )

    pub with_properties-Written :
        (m : PropertyMap ℕ PropertyDesc) (key : ℕ) (d : Option PropertyDesc)
        → Rewritten keys (heap p).properties m key d
        → Written heap (with_properties m) p key d
    unfolding Rewritten
    with_properties-Written m key d w =
        subst
          (λ (o : EjsObject).
            IsValid keys o.properties
            × (Abstract.get keys (Abstract.entries o.properties) key ≡ d)
            × ((other : ℕ)
                → keys.same key other ≡ false
                → Abstract.get keys (Abstract.entries o.properties) other ≡ own keys heap p other)
            × (o.proto ≡ (heap p).proto)
            × (o.extensible ≡ (heap p).extensible)
            × ((r : ℕ) → (r == p) ≡ false → with_properties m r ≡ heap r))
          (sym (at m)) (w.0, w.1, w.2, refl, refl, elsewhere m)
