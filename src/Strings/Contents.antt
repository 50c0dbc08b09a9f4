-- ===== src/Strings/Contents.antt =====
-- The code units that a string of runtime/ejs-string.h stands for, and reading one of them.
use echo_js.Base.{
  ℕ, zero, suc, ◌+◌, ◌-◌, ◌%◌, ◌^◌, ◌<◌, ◌≤◌, ◌≡◌, refl, List, [], ◌∷◌, ◌++◌, some, length, take,
  drop, get_elem?, arith, length-append, length-take, length-drop, get_elem?-append_left,
  get_elem?-append_right, get_elem?-take, get_elem?-drop,
}
use echo_js.Strings.{PrimString, flat, rope, dependent, string_length, unit, ucs2_at}

unfoldable pub contents : PrimString → List ℕ
contents (flat l us) = us
contents (rope l s t) = contents s ++ contents t
contents (dependent l s off) = take l (drop off (contents s))

-- The lengths are those of the parts, and no length reaches 2 ^ 31.
abbrev pub IsString : PrimString → Type 0
IsString (flat l us) = (length us ≡ l) × (l < 2 ^ 31)
IsString (rope l s t) =
    IsString s × IsString t × (l ≡ string_length s + string_length t) × (l < 2 ^ 31)
IsString (dependent l s off) = IsString s × (off + l ≤ string_length s)

pub short : (s : PrimString) → IsString s → string_length s < 2 ^ 31
short (flat l us) v = v.1
short (rope l s t) v = v.3
short (dependent l s off) v = ground (arith, short s v.0)

pub length-contents : (s : PrimString) → IsString s → length (contents s) ≡ string_length s
unfolding contents
length-contents (flat l us) v = v.0
length-contents (rope l s t) v = omega (
  arith,
  length-append (contents s) (contents t),
  length-contents s v.0,
  length-contents t v.1,
  v.2,
)
length-contents (dependent l s off) v =
    length-take l (drop off (contents s))
      (omega (arith, length-drop off (contents s), length-contents s v.0, v.1))

get_elem?-unit : (us : List ℕ) (i : ℕ) → i < length us → get_elem? us i ≡ some (unit us i)
get_elem?-unit [] i h = absurd (omega arith)
get_elem?-unit (u ∷ us) zero h = refl
get_elem?-unit (u ∷ us) (suc i) h = get_elem?-unit us i (omega arith)

-- On a string whose lengths fit, reading at an index below the length gives the unit of the
-- contents there, through whatever ropes and dependent strings.
pub ucs2_at-contents :
    (s : PrimString) (i : ℕ)
    → IsString s
    → i < string_length s
    → get_elem? (contents s) i ≡ some (ucs2_at s i)
unfolding ucs2_at contents
ucs2_at-contents (flat l us) i v h = get_elem?-unit us i (omega (arith, v.0))
ucs2_at-contents (rope l s t) i v h = ground (
  arith,
  v,
  length-contents s v.0,
  get_elem?-append_left (contents s) (contents t) i,
  get_elem?-append_right (contents s) (contents t) i,
  ucs2_at-contents s i v.0,
  ucs2_at-contents t (i - string_length s) v.1,
)
ucs2_at-contents (dependent l s off) i v h = ground (
  arith,
  v,
  short s v.0,
  get_elem?-take i l (drop off (contents s)) h,
  get_elem?-drop i off (contents s),
  ucs2_at-contents s ((i + off) % 2 ^ 32) v.0,
)
