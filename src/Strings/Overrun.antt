-- ===== src/Strings/Overrun.antt =====
-- The slice of a rope of runtime/ejs-string.c across the end of a dependent part: flatten_dep does
-- not stop where the dependent part ends.
use mathlib.Core.Path.{subst}
use echo_js.Base.{
  ℕ, ◌+◌, ◌<◌, ◌≤◌, ◌≡◌, refl, ap, sym, ==_false, Bool, ◌∙◌, List, [], ◌∷◌, ◌++◌, take, drop,
  if◌then◌else◌, arith,
}
use echo_js.Strings.{
  PrimString, flat, rope, dependent, string_length, Piece, nothing, after, flatten_dep,
}
use echo_js.Strings.Contents.{contents, IsString}
use echo_js.Strings.Flattening.{IsTree, Cut, flatten_dep-Cut}

flatten_dep-nothing : (s : PrimString) (off : ℕ) → flatten_dep s off 0 ≡ nothing off 0
unfolding flatten_dep
flatten_dep-nothing (flat l us) off = refl
flatten_dep-nothing (rope l s t) off = refl
flatten_dep-nothing (dependent l s o) off = refl

append_nil : (xs : List ℕ) → xs ++ [] ≡ xs
append_nil [] = refl
append_nil (x ∷ xs) = ap (x ∷◌) (append_nil xs)

-- Nothing is appended once no more is asked for.
after-nothing :
    (p : Piece) (u : PrimString) → p.len ≡ 0 → (after p (flatten_dep u p.off p.len)).units ≡ p.units
after-nothing p u e =
    ap (λ (k : ℕ). (after p (flatten_dep u p.off k)).units) e
    ∙ ap (λ (q : Piece). p.units ++ q.units) (flatten_dep-nothing u p.off)
    ∙ append_nil p.units

-- A rope whose left part is a piece of `t`, from `o` on, where `t` has no dependent part and its
-- lengths fit: any positive number of units of the rope from an offset on, so long as `t` has as
-- many behind `o` and that offset, are units of `t`, however short the left part is and whatever
-- the right part holds.
flatten_dep_overruns :
    (t u : PrimString) (l l' o off len : ℕ)
    → IsString t
    → IsTree t
    → 0 < len
    → off + o + len ≤ string_length t
    → (flatten_dep (rope l' (dependent l t o) u) off len).units
      ≡ take len (drop (off + o) (contents t))
unfolding flatten_dep Cut
flatten_dep_overruns t u l l' o off len v w h k =
    let p = flatten_dep t (off + o) len in
    let c = flatten_dep-Cut t (off + o) len v w in
    subst
      (λ (b : Bool).
        (let q = if b then nothing off len else p in
          if b then nothing off len else after q (flatten_dep u q.off q.len)).units
        ≡ take len (drop (off + o) (contents t)))
      (sym (==_false len 0 (λ (e : len ≡ 0). absurd (omega arith))))
      (after-nothing p u (omega (arith, c.2)) ∙ c.0)
