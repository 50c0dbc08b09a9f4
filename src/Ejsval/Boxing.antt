-- ===== src/Ejsval/Boxing.antt =====
-- Boxing loses nothing and confuses no two types.
use echo_js.Base.{
  ℕ, ◌+◌, ◌*◌, ◌^◌, ◌<◌, bit_or, ◌≡◌, ◌≢◌, ◌⊎◌, inl, inr, true, false, ◌≤◌, refl, some, arith,
  or_of_fields_flipped, and_mask,
}
use echo_js.Ejsval.{is_traceable, to_tag, is_double, is_undefined, is_null, is_string, to_pointer}
use echo_js.Ejsval.View.{
  View, double, int32, boolean, magic, string, closureenv, symbol, object, undefined, null, encode,
  decode, Fits, holds_cell, type_code,
}

box : (tag p : ℕ) → p < 2 ^ 47 → bit_or p (tag * 2 ^ 47) ≡ tag * 2 ^ 47 + p
box tag p h = or_of_fields_flipped 47 tag p h

-- Every value in range comes back from its word.
pub decode-encode : (v : View) → Fits v → decode (encode v) ≡ some v
unfolding encode decode
decode-encode (double d) h = ground arith
decode-encode (int32 i) h = ground (arith, box 0x1FFF1 i)
decode-encode undefined h = refl
decode-encode (boolean b) h = ground (arith, box 0x1FFF3 b)
decode-encode (magic w) h = ground (arith, box 0x1FFF4 w)
decode-encode (string p) h = ground (arith, box 0x1FFF5 p, and_mask 47 (0x1FFF5 * 2 ^ 47 + p))
decode-encode (closureenv p) h = ground (arith, box 0x1FFF6 p, and_mask 47 (0x1FFF6 * 2 ^ 47 + p))
decode-encode null h = refl
decode-encode (symbol p) h = ground (arith, box 0x1FFF8 p, and_mask 47 (0x1FFF8 * 2 ^ 47 + p))
decode-encode (object p) h = ground (arith, box 0x1FFF9 p, and_mask 47 (0x1FFF9 * 2 ^ 47 + p))

-- Of the values in range the collector's test accepts exactly those that hold an address.
is_traceable-encode : (v : View) → Fits v → is_traceable (encode v) ≡ holds_cell v
unfolding encode is_traceable
is_traceable-encode (double d) h = ground arith
is_traceable-encode (int32 i) h = ground (arith, box 0x1FFF1 i)
is_traceable-encode undefined h = refl
is_traceable-encode (boolean b) h = ground (arith, box 0x1FFF3 b)
is_traceable-encode (magic w) h = ground (arith, box 0x1FFF4 w)
is_traceable-encode (string p) h = ground (arith, box 0x1FFF5 p)
is_traceable-encode (closureenv p) h = ground (arith, box 0x1FFF6 p)
is_traceable-encode null h = refl
is_traceable-encode (symbol p) h = ground (arith, box 0x1FFF8 p)
is_traceable-encode (object p) h = ground (arith, box 0x1FFF9 p)

-- The tag of a double's word is at most EJSVAL_TAG_MAX_DOUBLE, and that of any other word tells
-- its type.
pub to_tag-encode :
    (v : View)
    → Fits v
    → ((type_code v ≡ 0) × (to_tag (encode v) ≤ 0x1FFF0))
      ⊎ ((0 < type_code v) × (to_tag (encode v) ≡ 0x1FFF0 + type_code v))
unfolding encode to_tag
to_tag-encode (double d) h = inl (ground arith)
to_tag-encode (int32 i) h = inr (ground (arith, box 0x1FFF1 i))
to_tag-encode undefined h = inr (ground arith)
to_tag-encode (boolean b) h = inr (ground (arith, box 0x1FFF3 b))
to_tag-encode (magic w) h = inr (ground (arith, box 0x1FFF4 w))
to_tag-encode (string p) h = inr (ground (arith, box 0x1FFF5 p))
to_tag-encode (closureenv p) h = inr (ground (arith, box 0x1FFF6 p))
to_tag-encode null h = inr (ground arith)
to_tag-encode (symbol p) h = inr (ground (arith, box 0x1FFF8 p))
to_tag-encode (object p) h = inr (ground (arith, box 0x1FFF9 p))

-- Values of two types have words of two tags.
pub to_tag-ne :
    (v w : View)
    → Fits v
    → Fits w
    → type_code v ≢ type_code w
    → to_tag (encode v) ≢ to_tag (encode w)
to_tag-ne v w hv hw ne = omega (arith, to_tag-encode v hv, to_tag-encode w hw)

-- What the tests of the comparisons find in the word of a string.
pub tests-string :
    (p : ℕ)
    → p < 2 ^ 47
    → (to_tag (encode (string p)) ≡ 0x1FFF5)
      × (is_double (encode (string p)) ≡ false)
      × (is_undefined (encode (string p)) ≡ false)
      × (is_null (encode (string p)) ≡ false)
      × (is_string (encode (string p)) ≡ true)
      × (to_pointer (encode (string p)) ≡ p)
unfolding encode to_tag is_double is_undefined is_null is_string to_pointer
tests-string p h = (
  ground (arith, box 0x1FFF5 p),
  ground (arith, box 0x1FFF5 p),
  ground (arith, box 0x1FFF5 p),
  ground (arith, box 0x1FFF5 p),
  ground (arith, box 0x1FFF5 p),
  ground (arith, box 0x1FFF5 p, and_mask 47 (0x1FFF5 * 2 ^ 47 + p)),
)
