-- ===== src/Common/Bits.antt =====
-- `|` of disjoint fields and `&` with a low mask as arithmetic, at every width.
use Prim.Native.Nat.{
  ℕ, zero, suc, ◌+◌, ◌-◌, ◌*◌, ◌/◌, ◌%◌, ◌^◌, ◌≤◌, ◌<◌, min, max, bit_and, bit_or, digits, bitwise,
  bit_and-bitwise, bit_or-bitwise,
}
use mathlib.Core.Path.{◌≡◌, refl, ap, ◌∙◌}
use native.Mathlib.Nat.{pow-suc, one-le-pow}
use native.Mathlib.Omega.{arith}

-- The native operations are a recursion on binary digits with fuel; the first number is enough fuel.
module _ (base : ℕ → ℕ) (digit : ℕ → ℕ → ℕ) where
  one_more :
      (fuel x y : ℕ) → x ≤ fuel → digits base digit (suc fuel) x y ≡ digits base digit fuel x y
  one_more zero zero y enough = refl
  one_more (suc fuel) zero y enough = refl
  one_more zero (suc x) y enough = absurd (omega arith)
  one_more (suc fuel) (suc x) y enough =
      ap (λ rest. rest * 2 + digit (suc x % 2) (y % 2))
        (one_more fuel (suc x / 2) (y / 2) (omega arith))

  spare_fuel :
      (spare fuel x y : ℕ) → spare + x ≡ fuel → digits base digit fuel x y ≡ digits base digit x x y
  spare_fuel zero fuel x y e =
      let exact : fuel ≡ x = omega (arith, e) in ap (λ n. digits base digit n x y) exact
  spare_fuel (suc spare) zero x y e = absurd (omega (arith, e))
  spare_fuel (suc spare) (suc fuel) x y e =
      one_more fuel x y (omega (arith, e)) ∙ spare_fuel spare fuel x y (omega (arith, e))

  -- One equation for the lowest digit, given that `base` satisfies it.
  bitwise_step :
      ((y : ℕ) → base y ≡ base (y / 2) * 2 + digit 0 (y % 2))
      → (x y : ℕ)
      → bitwise base digit x y ≡ bitwise base digit (x / 2) (y / 2) * 2 + digit (x % 2) (y % 2)
  bitwise_step at_zero zero y = at_zero y
  bitwise_step at_zero (suc x) y =
      ap (λ rest. rest * 2 + digit (suc x % 2) (y % 2))
        (spare_fuel (x - suc x / 2) x (suc x / 2) (y / 2) (omega arith))

pub bit_or_step : (x y : ℕ) → bit_or x y ≡ bit_or (x / 2) (y / 2) * 2 + max (x % 2) (y % 2)
bit_or_step x y = simp bit_or-bitwise (bitwise_step (λ n. n) max (λ n. omega arith) x y)

pub bit_and_step : (x y : ℕ) → bit_and x y ≡ bit_and (x / 2) (y / 2) * 2 + min (x % 2) (y % 2)
bit_and_step x y = simp bit_and-bitwise (bitwise_step (λ n. 0) min (λ n. omega arith) x y)

-- `|` and `&` with no bit at all, for every number up to a bound.
with_zero : (bound x : ℕ) → x ≤ bound → (bit_or x 0 ≡ x) × (bit_and x 0 ≡ 0)
with_zero bound zero below = (refl, refl)
with_zero zero (suc x) below = absurd (omega arith)
with_zero (suc bound) (suc x) below =
    let (or_half, and_half) = with_zero bound (suc x / 2) (omega arith) in
    (omega (arith, bit_or_step (suc x) 0, or_half), omega (arith, bit_and_step (suc x) 0, and_half))

pub bit_or-zero : (x : ℕ) → bit_or x 0 ≡ x
bit_or-zero x = (with_zero x x (omega arith)).0

pub bit_and-zero : (x : ℕ) → bit_and x 0 ≡ 0
bit_and-zero x = (with_zero x x (omega arith)).1

pub double_pow : (q k : ℕ) → q * 2 ^ suc k ≡ 2 * (q * 2 ^ k)
double_pow q k = let double = pow-suc 2 k in omega (arith, ap (λ (p : ℕ). q * p) double)

-- `(high << width) | low`, where `low` fits in `width` bits.
pub bit_or_fields :
    (width high low : ℕ) → low < 2 ^ width → bit_or (high * 2 ^ width) low ≡ high * 2 ^ width + low
bit_or_fields zero high low narrow = ground (arith, bit_or-zero high)
bit_or_fields (suc width) high low narrow =
    let halves = bit_or_fields width high (low / 2) (omega arith) in
    ground (arith, halves, double_pow high width, bit_or_step (high * 2 ^ suc width) low)

-- `low & ((1 << width) - 1)` with other bits above.
low_bits :
    (width high low : ℕ) → low < 2 ^ width → bit_and (high * 2 ^ width + low) (2 ^ width - 1) ≡ low
low_bits zero high low narrow = rw bit_and-zero (omega arith)
low_bits (suc width) high low narrow =
    let halves = low_bits width high (low / 2) (omega arith) in
    let lowest = bit_and_step (high * 2 ^ suc width + low) (2 ^ suc width - 1) in
    ground (arith, halves, lowest, pow-suc 2 width, double_pow high width)

-- `&` with `(1 << width) - 1` is the remainder by `2 ^ width`.
pub bit_and_mask : (width x : ℕ) → bit_and x (2 ^ width - 1) ≡ x % 2 ^ width
bit_and_mask width x =
    ground (arith, low_bits width (x / 2 ^ width) (x % 2 ^ width), one-le-pow width 2)

zero-bit_or : (y : ℕ) → bit_or 0 y ≡ y
zero-bit_or y = bit_or-bitwise 0 y

-- The same with the low field on the left.
pub bit_or_fields_right :
    (width high low : ℕ) → low < 2 ^ width → bit_or low (high * 2 ^ width) ≡ high * 2 ^ width + low
bit_or_fields_right zero high zero narrow = omega (arith, zero-bit_or (high * 2 ^ 0))
bit_or_fields_right zero high (suc low) narrow = absurd (omega arith)
bit_or_fields_right (suc width) high low narrow =
    let halves = bit_or_fields_right width high (low / 2) (omega arith) in
    ground (arith, halves, double_pow high width, bit_or_step low (high * 2 ^ suc width))
