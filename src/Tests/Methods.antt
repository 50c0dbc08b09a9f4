-- ===== src/Tests/Methods.antt =====
-- The methods of Map.prototype on a heap with one Map and plain objects.
use echo_js.Base.{ℕ, [], ◌∷◌, ◌==◌, if◌then◌else◌, none}
use echo_js.Equality.{Memory}
use echo_js.Objects.{map_object, plain_object}
use echo_js.MapData.Methods.{Heap}

abbrev mem : Memory
mem p = none

abbrev two : ℕ
two = 0x4000000000000000

-- The Map at the address 16 holds 2.0 ↦ 8; at every other address is a plain object.
abbrev heap : Heap
heap = record {
  class_at = λ p. if p == 16 then map_object else plain_object;
  maps = λ p. record { key = two; value = 8 } ∷ [];
}
