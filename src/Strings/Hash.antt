-- ===== src/Strings/Hash.antt =====
-- The hash of a primitive string, ucs2_hash, hash_dep and _ejs_primstring_hash_inner of
-- runtime/ejs-string.c: a word of 32 bits with its wrap-around.
use echo_js.Base.{
  ℕ, zero, suc, ◌+◌, ◌-◌, ◌*◌, ◌/◌, ◌%◌, ◌^◌, ◌<◌, ◌≡◌, refl, ap, ◌∙◌, List, [], ◌∷◌, All, drop,
  ltb, ◌==◌, if◌then◌else◌, if-cases, arith,
}
use echo_js.Strings.{PrimString, flat, rope, dependent, minimum, unit}

-- a `char` in the arithmetic of int32_t
abbrev pub signed_char : ℕ → ℕ
signed_char c = if ltb c 128 then c else c + 2 ^ 32 - 256

-- the body of the loop of ucs2_hash, for the two bytes of a unit
unfoldable pub hash_unit : ℕ → ℕ → ℕ
hash_unit hash u =
    let first = (hash * 32 + (2 ^ 32 - hash * signed_char (u % 256) % 2 ^ 32)) % 2 ^ 32 in
    (first * 32 + (2 ^ 32 - first) + signed_char (u / 256)) % 2 ^ 32

-- ucs2_hash; the loop also runs for a length of zero
unfoldable pub ucs2_hash : List ℕ → ℕ → ℕ → ℕ
unfolding hash_unit
ucs2_hash us hash zero = hash_unit hash (unit us 0)
ucs2_hash us hash (suc length) = ucs2_hash (drop 1 us) (hash_unit hash (unit us 0)) length

-- What hash_dep leaves: the hash, and the new `*off` and `*len`.
pub record Hashed : Type 0 where
  pub hash : ℕ
  pub off : ℕ
  pub len : ℕ

-- hash_dep; `*off` is never negative
unfoldable pub hash_dep : ℕ → PrimString → ℕ → ℕ → Hashed
unfolding ucs2_hash
hash_dep hash (flat l us) off len =
    if len == 0
    then record { hash = hash; off = off; len = len }
    else if ltb off l
    then record {
      hash = ucs2_hash (drop off us) hash (minimum len (l - off));
      off = 0;
      len = len - minimum len (l - off);
    }
    else record { hash = hash; off = off - l; len = len }
hash_dep hash (rope l s t) off len =
    let p = hash_dep hash s off len in
    let q = hash_dep p.hash t p.off p.len in
    if len == 0 then record { hash = hash; off = off; len = len } else q
hash_dep hash (dependent l s o) off len =
    let p = hash_dep hash s (off + o) len in
    if len == 0 then record { hash = hash; off = off; len = len } else p

-- _ejs_primstring_hash_inner
unfoldable pub primstring_hash_inner : PrimString → ℕ → ℕ
unfolding ucs2_hash hash_dep
primstring_hash_inner (flat l us) cur_hash = ucs2_hash us cur_hash l
primstring_hash_inner (dependent l s o) cur_hash = (hash_dep cur_hash (dependent l s o) 0 l).hash
primstring_hash_inner (rope l s t) cur_hash =
    primstring_hash_inner t (primstring_hash_inner s cur_hash)

-- Every unit in memory is below 256.
abbrev pub IsLatin : PrimString → Type 0
IsLatin (flat l us) = All (λ u. u < 256) us
IsLatin (rope l s t) = IsLatin s × IsLatin t
IsLatin (dependent l s o) = IsLatin s

hash_unit_zero : (u : ℕ) → u < 256 → hash_unit 0 u ≡ 0
unfolding hash_unit
hash_unit_zero u h = ground arith

unit_latin : (us : List ℕ) → All (λ u. u < 256) us → unit us 0 < 256
unit_latin [] h = omega arith
unit_latin (u ∷ us) h = h.0

drop_latin : (n : ℕ) (us : List ℕ) → All (λ u. u < 256) us → All (λ u. u < 256) (drop n us)
drop_latin zero us h = h
drop_latin (suc n) [] h = tt
drop_latin (suc n) (u ∷ us) h = drop_latin n us h.1

ucs2_hash_latin : (l : ℕ) (us : List ℕ) → All (λ u. u < 256) us → ucs2_hash us 0 l ≡ 0
unfolding ucs2_hash
ucs2_hash_latin zero us h = hash_unit_zero (unit us 0) (unit_latin us h)
ucs2_hash_latin (suc l) us h =
    ap (λ (k : ℕ). ucs2_hash (drop 1 us) k l) (hash_unit_zero (unit us 0) (unit_latin us h))
    ∙ ucs2_hash_latin l (drop 1 us) (drop_latin 1 us h)

hash_dep_latin : (s : PrimString) (off len : ℕ) → IsLatin s → (hash_dep 0 s off len).hash ≡ 0
unfolding hash_dep
hash_dep_latin (flat l us) off len h =
    ground (arith, ucs2_hash_latin (minimum len (l - off)) (drop off us) (drop_latin off us h))
hash_dep_latin (rope l s t) off len h =
    let p = hash_dep 0 s off len in
    if-cases (λ (r : Hashed). r.hash ≡ 0) (len == 0) (λ e. refl)
      (λ e.
        ap (λ (k : ℕ). (hash_dep k t p.off p.len).hash) (hash_dep_latin s off len h.0)
        ∙ hash_dep_latin t p.off p.len h.1)
hash_dep_latin (dependent l s o) off len h =
    if-cases (λ (r : Hashed). r.hash ≡ 0) (len == 0) (λ e. refl)
      (λ e. hash_dep_latin s (off + o) len h)

-- Every string whose units in memory are all below 256, of whatever form and length, has the hash
-- zero: ucs2_hash multiplies the zero that it starts with by the low byte of each unit.
primstring_hash_latin : (s : PrimString) → IsLatin s → primstring_hash_inner s 0 ≡ 0
unfolding primstring_hash_inner
primstring_hash_latin (flat l us) h = ucs2_hash_latin l us h
primstring_hash_latin (rope l s t) h =
    ap (primstring_hash_inner t) (primstring_hash_latin s h.0) ∙ primstring_hash_latin t h.1
primstring_hash_latin (dependent l s o) h = hash_dep_latin (dependent l s o) 0 l h
