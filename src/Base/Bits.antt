-- ===== src/Base/Bits.antt =====
-- `|` of a shifted field and a smaller one is a sum, and `&` with a low mask a remainder.
use Prim.Native.Nat.{
  ℕ, zero, suc, ◌+◌, ◌-◌, ◌*◌, ◌/◌, ◌%◌, ◌^◌, ◌≤◌, ◌<◌, min, max, bit_and, bit_or, digits,
  bit_and-bitwise, bit_or-bitwise,
}
use mathlib.Core.Path.{◌≡◌, refl, ap}
use native.Mathlib.Nat.{pow-suc, one-le-pow}
use native.Mathlib.Omega.{arith}

-- Fuel that covers the first number is enough, however much it is.
digits_enough :
    (z : ℕ → ℕ)
    → (f : ℕ → ℕ → ℕ) → (a b : ℕ) → (n : ℕ) → a ≤ n
    → (m : ℕ) → a ≤ m
    → digits z f n a b ≡ digits z f m a b
digits_enough z f (suc a) b (suc n) h (suc m) k =
    omega (arith, digits_enough z f (suc a / 2) (b / 2) n (omega arith) m (omega arith))
digits_enough z f (suc a) b (suc n) h zero k = absurd (omega arith)
digits_enough z f (suc a) b zero h m k = absurd (omega arith)
digits_enough z f zero b (suc n) h (suc m) k = refl
digits_enough z f zero b (suc n) h zero k = refl
digits_enough z f zero b zero h (suc m) k = refl
digits_enough z f zero b zero h zero k = refl

digits_half :
    (z : ℕ → ℕ)
    → (f : ℕ → ℕ → ℕ) → (a b : ℕ)
    → digits z f a (suc a / 2) b ≡ digits z f (suc a / 2) (suc a / 2) b
digits_half z f a b = digits_enough z f (suc a / 2) b a (omega arith) (suc a / 2) (omega arith)

pub or_lowest : (a b : ℕ) → bit_or a b ≡ bit_or (a / 2) (b / 2) * 2 + max (a % 2) (b % 2)
or_lowest zero b = omega (arith, bit_or-bitwise 0 b, bit_or-bitwise 0 (b / 2))
or_lowest (suc a) b = omega (
  arith,
  bit_or-bitwise (suc a) b,
  bit_or-bitwise (suc a / 2) (b / 2),
  digits_half (λ y. y) max a (b / 2),
)

pub and_lowest : (a b : ℕ) → bit_and a b ≡ bit_and (a / 2) (b / 2) * 2 + min (a % 2) (b % 2)
and_lowest zero b = omega (arith, bit_and-bitwise 0 b, bit_and-bitwise 0 (b / 2))
and_lowest (suc a) b = omega (
  arith,
  bit_and-bitwise (suc a) b,
  bit_and-bitwise (suc a / 2) (b / 2),
  digits_half (λ y. 0) min a (b / 2),
)

or-zero_below : (n a : ℕ) → a ≤ n → bit_or a 0 ≡ a
or-zero_below n zero h = refl
or-zero_below zero (suc a) h = absurd (omega arith)
or-zero_below (suc n) (suc a) h =
    omega (arith, or_lowest (suc a) 0, or-zero_below n (suc a / 2) (omega arith))

and-zero_below : (n a : ℕ) → a ≤ n → bit_and a 0 ≡ 0
and-zero_below n zero h = refl
and-zero_below zero (suc a) h = absurd (omega arith)
and-zero_below (suc n) (suc a) h =
    omega (arith, and_lowest (suc a) 0, and-zero_below n (suc a / 2) (omega arith))

mul-pow-suc : (q k : ℕ) → q * 2 ^ suc k ≡ 2 * (q * 2 ^ k)
mul-pow-suc q k = omega (arith, ap (λ (t : ℕ). q * t) (pow-suc 2 k))

-- `(q << k) | r` where `r` fits in `k` bits.
pub or_of_fields : (k q r : ℕ) → r < 2 ^ k → bit_or (q * 2 ^ k) r ≡ q * 2 ^ k + r
or_of_fields zero q r h = ground (arith, or-zero_below q q)
or_of_fields (suc k) q r h =
    ground
      (arith, or_lowest (q * 2 ^ suc k) r, mul-pow-suc q k, or_of_fields k q (r / 2) (omega arith))

and_mask_fields : (k q r : ℕ) → r < 2 ^ k → bit_and (q * 2 ^ k + r) (2 ^ k - 1) ≡ r
and_mask_fields zero q r h = ground (arith, and-zero_below (q + r) (q + r))
and_mask_fields (suc k) q r h = ground (
  arith,
  and_lowest (q * 2 ^ suc k + r) (2 ^ suc k - 1),
  mul-pow-suc q k,
  pow-suc 2 k,
  and_mask_fields k q (r / 2) (omega arith),
)

-- `a & (2 ^ k - 1)`.
pub and_mask : (k a : ℕ) → bit_and a (2 ^ k - 1) ≡ a % 2 ^ k
and_mask k a = ground (arith, one-le-pow k 2, and_mask_fields k (a / 2 ^ k) (a % 2 ^ k))

or_comm_below : (n a b : ℕ) → a + b ≤ n → bit_or a b ≡ bit_or b a
or_comm_below n zero zero h = refl
or_comm_below zero (suc a) b h = absurd (omega arith)
or_comm_below zero zero (suc b) h = absurd (omega arith)
or_comm_below (suc n) (suc a) b h = omega (
  arith,
  or_lowest (suc a) b,
  or_lowest b (suc a),
  or_comm_below n (suc a / 2) (b / 2) (omega arith),
)
or_comm_below (suc n) zero (suc b) h = omega (
  arith,
  or_lowest zero (suc b),
  or_lowest (suc b) zero,
  or_comm_below n (0 / 2) (suc b / 2) (omega arith),
)

-- `r | (q << k)`, the order that the boxing functions use.
pub or_of_fields_flipped : (k q r : ℕ) → r < 2 ^ k → bit_or r (q * 2 ^ k) ≡ q * 2 ^ k + r
or_of_fields_flipped k q r h =
    omega (arith, or_comm_below (r + q * 2 ^ k) r (q * 2 ^ k) (omega arith), or_of_fields k q r h)
