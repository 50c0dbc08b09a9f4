-- ===== src/Strings/Building.antt =====
-- Concatenation and substrings of runtime/ejs-string.c against the contents.
use echo_js.Base.{
  ℕ, ◌+◌, ◌%◌, ◌^◌, ◌<◌, ◌≤◌, ◌≡◌, refl, ap, ◌∙◌, List, ◌++◌, take, drop, ltb, length, if-cases,
  arith, take_all, length-append, length-take,
}
use echo_js.Strings.{
  PrimString, dependent, string_length, flatten_dep, flatten_rope, concat, new_substring,
}
use echo_js.Strings.Contents.{contents, IsString, short, length-contents}
use echo_js.Strings.Flattening.{
  IsSliceable, IsFlattenable, flatten_dep-contents, flatten_rope-contents,
}

-- A string whose lengths fit, and which has these units.
abbrev pub Holds : PrimString → List ℕ → Type 0
Holds s us = IsString s × (contents s ≡ us)

module _ (s t : PrimString) (v : IsString s) (w : IsString t) (a : IsFlattenable s)
    (b : IsFlattenable t) where
  appended : List ℕ
  appended = flatten_rope s ++ flatten_rope t

  appended-contents : appended ≡ contents s ++ contents t
  unfolding appended
  appended-contents =
      ap (◌++ flatten_rope t) (flatten_rope-contents s v a)
      ∙ ap (contents s ++◌) (flatten_rope-contents t w b)

  length-appended : length appended ≡ string_length s + string_length t
  length-appended = omega (
    arith,
    ap length appended-contents,
    length-append (contents s) (contents t),
    length-contents s v,
    length-contents t w,
  )

  -- Two strings whose lengths fit, whose dependent parts have targets that are sliced rightly, and
  -- whose lengths add up to less than 2 ^ 31: _ejs_string_concat makes a string whose lengths fit,
  -- and whose contents are those of the first and then those of the second, be it flat or a rope.
  pub concat-contents :
      string_length s + string_length t < 2 ^ 31
      → IsString (concat s t) × (contents (concat s t) ≡ contents s ++ contents t)
  unfolding concat contents appended
  concat-contents h =
      if-cases (λ r. Holds r (contents s ++ contents t))
        (ltb ((string_length s + string_length t) % 2 ^ 32) 32)
        (λ c. (
          (
            length-take ((string_length s + string_length t) % 2 ^ 32) appended
                (omega (arith, length-appended)),
            omega arith,
          ),
          take_all appended ((string_length s + string_length t) % 2 ^ 32)
                (omega (arith, length-appended))
              ∙ appended-contents,
        ))
        (λ c. ((v, w, omega arith, omega arith), refl))

module _ (s : PrimString) (off len : ℕ) (v : IsString s) (a : IsSliceable s)
    (within : off + len ≤ string_length s) where
  cut : List ℕ
  cut = (flatten_dep (dependent len s off) 0 len).units

  cut-contents : cut ≡ take len (drop off (contents s))
  unfolding cut contents
  cut-contents =
      flatten_dep-contents (dependent len s off) 0 len (v, within) a (omega arith)
      ∙ take_all (take len (drop off (contents s))) len
          (omega (arith, length-contents (dependent len s off) (v, within)))

  length-cut : length cut ≡ len
  unfolding contents
  length-cut = ap length cut-contents ∙ length-contents (dependent len s off) (v, within)

  -- A piece that lies within a string whose lengths fit and which is sliced rightly:
  -- _ejs_string_new_substring makes a string whose lengths fit, and whose contents are that piece
  -- of the contents, be it a copy or a dependent string.
  pub new_substring-contents :
      IsString (new_substring s off len)
      × (contents (new_substring s off len) ≡ take len (drop off (contents s)))
  unfolding new_substring contents cut
  new_substring-contents =
      if-cases (λ r. Holds r (take len (drop off (contents s)))) (ltb len 32)
        (λ c. ((length-cut, omega (arith, within, short s v)), cut-contents))
        (λ c. ((v, within), refl))
