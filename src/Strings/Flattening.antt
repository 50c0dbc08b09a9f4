-- ===== src/Strings/Flattening.antt =====
-- flatten_dep, flatten_rope and _ejs_primstring_flatten of runtime/ejs-string.c against the contents.
use echo_js.Base.{
  ℕ, zero, suc, ◌+◌, ◌-◌, ◌<◌, ◌≤◌, ◌≡◌, refl, ap, ◌∙◌, List, [], ◌++◌, true, false, length, take,
  drop, ◌==◌, if◌then◌else◌, if-cases, arith, take_all, take-drop-append, take-drop-take, drop-past,
  drop-drop, length-drop,
}
use echo_js.Strings.{
  PrimString, flat, rope, dependent, string_length, minimum, Piece, nothing, flat_piece, after,
  flatten_dep, flatten_rope, primstring_flatten,
}
use echo_js.Strings.Contents.{contents, IsString, length-contents}

-- No part is a dependent string.
abbrev pub IsTree : PrimString → Type 0
IsTree (flat l us) = Unit
IsTree (rope l s t) = IsTree s × IsTree t
IsTree (dependent l s off) = ⊥

-- A string that flatten_dep cuts rightly: the target of a dependent string is again dependent,
-- or has no dependent part.
abbrev pub IsSliceable : PrimString → Type 0
IsSliceable (flat l us) = Unit
IsSliceable (rope l s t) = IsTree s × IsTree t
IsSliceable (dependent l s off) = IsSliceable s

-- Every dependent part has such a target.
abbrev pub IsFlattenable : PrimString → Type 0
IsFlattenable (flat l us) = Unit
IsFlattenable (rope l s t) = IsFlattenable s × IsFlattenable t
IsFlattenable (dependent l s off) = IsSliceable s

-- What flatten_dep comes to on a string without dependent parts.
unfoldable pub Cut : PrimString → ℕ → ℕ → Piece → Type 0
Cut s off len p =
    (p.units ≡ take len (drop off (contents s)))
    × (p.off ≡ (if len == 0 then off else off - string_length s))
    × (p.len ≡ len - (string_length s - off))

nothing-Cut : (s : PrimString) (off len : ℕ) → (len == 0) ≡ true → Cut s off len (nothing off len)
unfolding Cut
nothing-Cut s off zero h = (refl, refl, omega arith)
nothing-Cut s off (suc len) h = absurd (ground arith)

take_nil : (n : ℕ) → take {A = ℕ} n [] ≡ []
take_nil n = take_all [] n (omega arith)

take-minimum :
    (len l off : ℕ) (us : List ℕ)
    → length us ≡ l
    → off < l
    → take (minimum len (l - off)) (drop off us) ≡ take len (drop off us)
take-minimum len l off us h k =
    ground (arith, take_all (drop off us) len, take_all (drop off us) (l - off), length-drop off us)

flat-Cut :
    (l off len : ℕ) (us : List ℕ)
    → length us ≡ l
    → (len == 0) ≡ false
    → Cut (flat l us) off len (flat_piece l us off len)
unfolding Cut contents
flat-Cut l off len us h k = (
  ground (arith, take-minimum len l off us h, drop-past off us, take_nil len),
  ground arith,
  ground arith,
)

after-Cut :
    (l off len : ℕ) (s t : PrimString) (p q : Piece)
    → IsString (rope l s t)
    → (len == 0) ≡ false
    → Cut s off len p
    → Cut t p.off p.len q
    → Cut (rope l s t) off len (after p q)
unfolding Cut contents
after-Cut l off len s t p q v k c d = (
  ground (arith, c, d, take-drop-append off len (contents s) (contents t), length-contents s v.0),
  ground (arith, c, d, v),
  ground (arith, c, d, v),
)

pub flatten_dep-Cut :
    (s : PrimString) (off len : ℕ) → IsString s → IsTree s → Cut s off len (flatten_dep s off len)
unfolding flatten_dep
flatten_dep-Cut (flat l us) off len v t =
    if-cases (Cut (flat l us) off len) (len == 0) (nothing-Cut (flat l us) off len)
      (flat-Cut l off len us v.0)
flatten_dep-Cut (rope l s t) off len v w =
    let p = flatten_dep s off len in
    if-cases (Cut (rope l s t) off len) (len == 0) (nothing-Cut (rope l s t) off len) (λ h.
      after-Cut l off len s t p (flatten_dep t p.off p.len) v h (flatten_dep-Cut s off len v.0 w.0)
        (flatten_dep-Cut t p.off p.len v.1 w.1))
flatten_dep-Cut (dependent l s o) off len v t = absurd t

-- The units that flatten_dep appends for a piece that lies within the string.
pub flatten_dep-contents :
    (s : PrimString) (off len : ℕ)
    → IsString s
    → IsSliceable s
    → off + len ≤ string_length s
    → (flatten_dep s off len).units ≡ take len (drop off (contents s))
unfolding flatten_dep contents Cut
flatten_dep-contents (flat l us) off len v w h = (flatten_dep-Cut (flat l us) off len v tt).0
flatten_dep-contents (rope l s t) off len v w h = (flatten_dep-Cut (rope l s t) off len v w).0
flatten_dep-contents (dependent l s o) off len v w h = ground (
  arith,
  v,
  flatten_dep-contents s (off + o) len v.0 w,
  take-drop-take off len l (drop o (contents s)),
  drop-drop off o (contents s),
)

pub flatten_rope-contents :
    (s : PrimString) → IsString s → IsFlattenable s → flatten_rope s ≡ contents s
unfolding flatten_rope contents
flatten_rope-contents (flat l us) v w = take_all us l (omega (arith, v.0))
flatten_rope-contents (rope l s t) v w =
    ap (◌++ flatten_rope t) (flatten_rope-contents s v.0 w.0)
    ∙ ap (contents s ++◌) (flatten_rope-contents t v.1 w.1)
flatten_rope-contents (dependent l s o) v w = flatten_dep-contents s o l v.0 w v.1

-- A string whose lengths fit and whose dependent parts have targets that are sliced rightly: it is
-- flat after _ejs_primstring_flatten, and has the contents and the length that it had.
primstring_flatten-contents :
    (s : PrimString)
    → IsString s
    → IsFlattenable s
    → primstring_flatten s ≡ flat (string_length s) (contents s)
unfolding primstring_flatten contents
primstring_flatten-contents (flat l us) v w = refl
primstring_flatten-contents (rope l s t) v w = ap (flat l) (flatten_rope-contents (rope l s t) v w)
primstring_flatten-contents (dependent l s o) v w = ap (flat l) (
    flatten_dep-contents (dependent l s o) 0 l v w (omega arith)
    ∙ take_all (take l (drop o (contents s))) l
        (omega (arith, length-contents (dependent l s o) v)))
