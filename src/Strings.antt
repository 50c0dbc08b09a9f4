-- ===== src/Strings.antt =====
-- The primitive strings of runtime/ejs-string.h: flat ones, ropes that concatenation builds, and
-- dependent ones that are a piece of another string; and the functions of runtime/ejs-string.c that
-- read, flatten and build them. A code unit is a number below 2 ^ 16, and a string a tree, so that
-- two strings that share a part have equal parts.
pub mod Contents
pub mod Flattening
pub mod Building
pub mod Overrun
pub mod Hash
use echo_js.Base.{
  ℕ, zero, suc, ◌+◌, ◌-◌, ◌%◌, ◌^◌, List, [], ◌∷◌, ◌++◌, Bool, true, false, Option, none, some,
  length, take, drop, get_elem?, ltb, leb, ◌==◌, if◌then◌else◌,
}

-- EJSPrimString by its EJSPrimStringType; the first number is the `length` field, and the last of a
-- dependent string its `off`.
pub data PrimString : Type 0 where
  flat : ℕ → List ℕ → PrimString
  rope : ℕ → PrimString → PrimString → PrimString
  dependent : ℕ → PrimString → ℕ → PrimString

abbrev pub string_length : PrimString → ℕ
string_length (flat l us) = l
string_length (rope l s t) = l
string_length (dependent l s off) = l

-- `min`
abbrev pub minimum : ℕ → ℕ → ℕ
minimum a b = if ltb a b then a else b

-- `flat[offset]`; what is behind the buffer reads as zero
abbrev pub unit : List ℕ → ℕ → ℕ
unit us i = elim (get_elem? us i) [ none ↦ 0 | some u ↦ u ]

-- _ejs_string_ucs2_at
unfoldable pub ucs2_at : PrimString → ℕ → ℕ
ucs2_at (dependent l s off) offset = ucs2_at s ((offset + off) % 2 ^ 32)
ucs2_at (rope l s t) offset =
    let left = ucs2_at s offset in
    let right = ucs2_at t (offset - string_length s) in
    if ltb offset (string_length s) then left else right
ucs2_at (flat l us) offset = unit us offset

-- _ejs_string_char_code_at; the index is a C `int` that is compared as an unsigned number, and
-- -1 as a jschar is 0xFFFF
unfoldable pub char_code_at : PrimString → ℕ → ℕ
char_code_at (flat l us) i = if leb l i then 0xFFFF else unit us i
char_code_at (rope l s t) i =
    let left = char_code_at s i in
    let right = char_code_at t ((i + 2 ^ 32 - string_length s) % 2 ^ 32) in
    if leb l i then 0xFFFF else if leb (string_length s) i then left else right
char_code_at (dependent l s off) i =
    let target = char_code_at s ((i + off) % 2 ^ 32) in if leb l i then 0xFFFF else target

-- What flatten_dep leaves: the units that it has appended, and the new `*off` and `*len`.
pub record Piece : Type 0 where
  pub units : List ℕ
  pub off : ℕ
  pub len : ℕ

abbrev pub nothing : ℕ → ℕ → Piece
nothing off len = record { units = []; off = off; len = len }

-- the flat case of flatten_dep
abbrev pub flat_piece : ℕ → List ℕ → ℕ → ℕ → Piece
flat_piece l us off len =
    if ltb off l
    then record {
      units = take (minimum len (l - off)) (drop off us);
      off = 0;
      len = len - minimum len (l - off);
    }
    else record { units = []; off = off - l; len = len }

abbrev pub after : Piece → Piece → Piece
after p q = record { units = p.units ++ q.units; off = q.off; len = q.len }

-- flatten_dep; `*off` is never negative, so that the half for a negative one is never reached
unfoldable pub flatten_dep : PrimString → ℕ → ℕ → Piece
flatten_dep (flat l us) off len = if len == 0 then nothing off len else flat_piece l us off len
flatten_dep (rope l s t) off len =
    let p = flatten_dep s off len in
    let q = flatten_dep t p.off p.len in if len == 0 then nothing off len else after p q
flatten_dep (dependent l s o) off len =
    let p = flatten_dep s (off + o) len in if len == 0 then nothing off len else p

-- flatten_rope: the units that it appends
unfoldable pub flatten_rope : PrimString → List ℕ
unfolding flatten_dep
flatten_rope (flat l us) = take l us
flatten_rope (rope l s t) = flatten_rope s ++ flatten_rope t
flatten_rope (dependent l s o) = (flatten_dep s o l).units

-- _ejs_primstring_flatten: what the string has become
unfoldable pub primstring_flatten : PrimString → PrimString
unfolding flatten_dep flatten_rope
primstring_flatten (flat l us) = flat l us
primstring_flatten (rope l s t) = flat l (flatten_rope (rope l s t))
primstring_flatten (dependent l s o) = flat l (flatten_dep (dependent l s o) 0 l).units

-- FLAT_ROPE_THRESHOLD and FLAT_DEP_THRESHOLD
abbrev pub flat_rope_threshold : ℕ
flat_rope_threshold = 32

abbrev pub flat_dep_threshold : ℕ
flat_dep_threshold = 32

-- _ejs_string_concat; the sum of two lengths is one of uint32_t
unfoldable pub concat : PrimString → PrimString → PrimString
unfolding flatten_rope
concat lhs rhs =
    let new_strlen = (string_length lhs + string_length rhs) % 2 ^ 32 in
    if ltb new_strlen flat_rope_threshold
    then flat new_strlen (take new_strlen (flatten_rope lhs ++ flatten_rope rhs))
    else rope new_strlen lhs rhs

-- _ejs_string_new_substring
unfoldable pub new_substring : PrimString → ℕ → ℕ → PrimString
unfolding flatten_dep
new_substring str off len =
    if ltb len flat_dep_threshold
    then flat len (flatten_dep (dependent len str off) 0 len).units
    else dependent len str off
