-- ===== src/PropertyMap/Symbols.antt =====
-- Symbols as property names: an implementation of the interface of the table.
use echo_js.Base.{ℕ, ◌%◌, ◌^◌, refl, sym, ap, ◌∙◌, bit_or, ◌==◌, ==_iff}
use echo_js.PropertyMap.{PropertyKeys}

-- _ejs_symbol_hash, of the symbol at an address
unfoldable pub symbol_hash : ℕ → ℕ
symbol_hash address = bit_or (address % 2 ^ 32) 1

-- Two symbols are the same at the same address.
abbrev pub symbol_keys : PropertyKeys ℕ
symbol_keys = record {
  same = λ a b. a == b;
  hash = symbol_hash;
  same_refl = λ a. (==_iff a a).1 refl;
  same_sym = λ a b h. (==_iff b a).1 (sym ((==_iff a b).0 h));
  same_trans = λ a b c h k. (==_iff a c).1 ((==_iff a b).0 h ∙ (==_iff b c).0 k);
  hash-same = λ a b h. ap symbol_hash ((==_iff a b).0 h);
}
