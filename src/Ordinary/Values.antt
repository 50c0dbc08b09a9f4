-- ===== src/Ordinary/Values.antt =====
-- A value that [[DefineOwnProperty]] of runtime/ejs-object.c has accepted is read back by [[Get]].
use mathlib.Core.Path.{subst}
use mathlib.Core.Option.{some-injective}
use echo_js.Base.{
  ℕ, suc, ◌^◌, ◌<◌, ◌≡◌, refl, ap, sym, inl, inr, Bool, true, false, not, ◌&&◌, Option, none, some,
  ok, ok-injective, aborted_ne_ok, if-cases, arith,
}
use echo_js.Ejsval.View.{object, encode}
use echo_js.Equality.{Memory}
use echo_js.PropertyMap.{PropertyKeys}
use echo_js.PropertyMap.Valid.{IsValid}
use echo_js.Descriptors.{
  PropertyDesc, or_false, get_value, is_data_descriptor, is_generic_descriptor, created, is_empty,
  same_fields, is_no_change, is_allowed, converted, applied, define_existing, define_own_property,
}
use echo_js.ObjectHeap.{Heap}
use echo_js.Ordinary.{is_property_key, to_property_key, is_proto_name, value, access, get, define}
use echo_js.Ordinary.Lookup.{own, get_own_property-own}
use echo_js.Ordinary.Written.{Written}
use echo_js.Ordinary.Definition.{Defined, define-Defined}

-- A descriptor of a value, and of no getter or setter.
abbrev pub OfValue : PropertyDesc → ℕ → Type 0
OfValue d V = (d.has_value ≡ true) × (d.value_or_getter ≡ V)

HoldsIfSome : ℕ → Option PropertyDesc → Type 0
HoldsIfSome V o = (d : PropertyDesc) → o ≡ some d → OfValue d V

some-Holds : (V : ℕ) (e : PropertyDesc) → OfValue e V → HoldsIfSome V (some e)
unfolding HoldsIfSome
some-Holds V e f d h = subst (λ (a : PropertyDesc). OfValue a V) (some-injective e d h) f

none-Holds : (V : ℕ) → HoldsIfSome V none
unfolding HoldsIfSome
none-Holds V d h = absurd (ground arith)

module _ (desc : PropertyDesc) (V : ℕ) (has : OfValue desc V) where
  created-OfValue : OfValue (created desc) V
  unfolding created is_generic_descriptor is_data_descriptor
  created-OfValue = ground (arith, has)

  nonempty : is_empty desc ≡ false
  unfolding is_empty
  nonempty = ground (arith, has)

  unchanged-OfValue :
      (current : PropertyDesc) → is_no_change desc current ≡ true → OfValue current V
  unfolding is_no_change same_fields get_value
  unchanged-OfValue current h = ground (arith, has)

  applied-OfValue : (dest : PropertyDesc) → OfValue (applied desc dest) V
  unfolding applied
  applied-OfValue dest = ground (arith, has)

  existing-Holds : (current : PropertyDesc) → HoldsIfSome V (define_existing desc current)
  unfolding define_existing
  existing-Holds current =
      if-cases (HoldsIfSome V) (is_empty desc) (λ a. absurd (ground (arith, nonempty)))
        (λ a.
          if-cases (HoldsIfSome V) (is_no_change desc current)
            (λ b. some-Holds V current (unchanged-OfValue current b))
            (λ b.
              if-cases (HoldsIfSome V)
                (not (or_false current.configurable) && not (is_allowed desc current))
                (λ c. none-Holds V)
                (λ c.
                  some-Holds V (applied desc (converted desc current))
                    (applied-OfValue (converted desc current)))))

  made-Holds :
      (found : Option PropertyDesc) (extensible : Bool)
      → HoldsIfSome V (define_own_property found extensible desc)
  unfolding define_own_property
  made-Holds none extensible =
      if-cases (HoldsIfSome V) extensible (λ a. some-Holds V (created desc) created-OfValue)
        (λ a. none-Holds V)
  made-Holds (some current) extensible = existing-Holds current

module _ (keys : PropertyKeys ℕ) (to_string : ℕ → ℕ) (heap : Heap) (p P : ℕ) (word : p < 2 ^ 47)
    (valid : IsValid keys (heap p).properties) (key : is_property_key P ≡ true)
    (kept : to_property_key to_string P ≡ P) where
  -- The heap after the property has got the value.
  abbrev pub Assigned : Heap → ℕ → Type 0
  Assigned heap' V = (d : PropertyDesc) × OfValue d V × Written keys heap heap' p P (some d)

  two_answers : ¬ (true ≡ false)
  two_answers h = ground arith

  accepted :
      (heap' : Heap) (V : ℕ) (made : Option PropertyDesc)
      → HoldsIfSome V made
      → Defined keys to_string heap p P word valid key kept false made (ok (heap', true))
      → Assigned heap' V
  unfolding Defined HoldsIfSome
  accepted heap' V none h w =
      absurd
        (two_answers (ap (λ (r : Heap × Bool). r.1) (ok-injective (heap', true) (heap, false) w)))
  accepted heap' V (some d) h (inl q) = absurd (aborted_ne_ok (heap', true) (sym q.0))
  accepted heap' V (some d) h (inr q) =
      subst (λ (g : Heap). Assigned g V)
        (sym (ap (λ (r : Heap × Bool). r.0) (ok-injective (heap', true) (q.0, true) q.1)))
        (d, h d refl, q.2)

  pub define-Assigned :
      (heap' : Heap) (desc : PropertyDesc) (V : ℕ)
      → OfValue desc V
      → define keys to_string heap (encode (object p)) P desc false ≡ ok (heap', true)
      → Assigned heap' V
  define-Assigned heap' desc V has e =
      let made = define_own_property (own keys heap p P) (heap p).extensible desc in
      accepted heap' V made (made-Holds desc V has (own keys heap p P) (heap p).extensible) (
        subst (Defined keys to_string heap p P word valid key kept false made) e
          (define-Defined keys to_string heap p P word valid key kept false desc))

module _ (keys : PropertyKeys ℕ) (to_string : ℕ → ℕ) (mem : Memory) (heap : Heap) (p P V : ℕ)
    (d : PropertyDesc) where
  -- An own data property is what [[Get]] returns.
  pub get-value :
      p < 2 ^ 47
      → IsValid keys (heap p).properties
      → to_property_key to_string P ≡ P
      → is_proto_name mem P ≡ ok false
      → own keys heap p P ≡ some d
      → OfValue d V
      → (n receiver : ℕ)
      → get keys to_string mem (suc n) heap (encode (object p)) P receiver ≡ some (ok (value V))
  unfolding get access is_data_descriptor
  get-value word valid kept other found has n receiver =
      ground
        (arith, kept, other, found, has, get_own_property-own keys to_string heap p P word valid)
