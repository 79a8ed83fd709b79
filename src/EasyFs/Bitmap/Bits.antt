-- ===== src/EasyFs/Bitmap/Bits.antt =====
-- The bits of the integers in src/easy-fs/src/bitmap.rs: how they are found, set and reset.
use project_r_core.Common.{
  ℕ, zero, suc, ◌+◌, ◌-◌, ◌*◌, ◌/◌, ◌%◌, ◌^◌, ◌≤◌, ◌<◌, ◌≡◌, refl, ◌≢◌, ap, arith, bit_and, bit_or,
  ℕ_discrete, eq→==, ne→not-==,
}
use project_r_core.Common.Bits.{bit_or_step, bit_and_step, bit_or-zero, bit_and-zero, double_pow}
use native.Mathlib.Nat.{pow-suc, one-le-pow}
use project_r_core.EasyFs.Bitmap.{trailing_ones}

-- Bit `k` of an integer.
pub bit : ℕ → ℕ → ℕ
bit w zero = w % 2
bit w (suc k) = bit (w / 2) k

pub bit-le : (w k : ℕ) → bit w k ≤ 1
unfolding bit
bit-le w zero = omega arith
bit-le w (suc k) = bit-le (w / 2) k

pub bit_or_pow : (w k : ℕ) → bit w k ≡ 0 → bit_or w (2 ^ k) ≡ w + 2 ^ k
unfolding bit
bit_or_pow w zero h = ground (arith, bit_or_step w 1, bit_or-zero (w / 2))
bit_or_pow w (suc k) h =
    ground (arith, pow-suc 2 k, bit_or_step w (2 ^ suc k), bit_or_pow (w / 2) k h)

pub bit_and_pow : (w k : ℕ) → bit_and w (2 ^ k) ≡ bit w k * 2 ^ k
unfolding bit
bit_and_pow w zero = ground (arith, bit_and_step w 1, bit_and-zero (w / 2))
bit_and_pow w (suc k) = ground (
  arith,
  bit_and_step w (2 ^ suc k),
  double_pow (bit (w / 2) k) k,
  pow-suc 2 k,
  bit_and_pow (w / 2) k,
)

pub bit_add_self : (w k : ℕ) → bit w k ≡ 0 → bit (w + 2 ^ k) k ≡ 1
unfolding bit
bit_add_self w zero h = omega arith
bit_add_self w (suc k) h =
    let half : (w + 2 ^ suc k) / 2 ≡ w / 2 + 2 ^ k = omega (arith, pow-suc 2 k) in
    rw half (bit_add_self (w / 2) k h)

pub bit_add_ne : (w k j : ℕ) → bit w k ≡ 0 → k ≢ j → bit (w + 2 ^ k) j ≡ bit w j
unfolding bit
bit_add_ne w zero zero h ne = absurd (ne refl)
bit_add_ne w zero (suc j) h ne = let half : (w + 1) / 2 ≡ w / 2 = omega arith in rw half refl
bit_add_ne w (suc k) zero h ne = omega (arith, pow-suc 2 k)
bit_add_ne w (suc k) (suc j) h ne =
    let half : (w + 2 ^ suc k) / 2 ≡ w / 2 + 2 ^ k = omega (arith, pow-suc 2 k) in
    rw half (bit_add_ne (w / 2) k j h (λ e. ne (ap suc e)))

-- A set bit is part of the sum.
pub pow-le : (w k : ℕ) → bit w k ≡ 1 → 2 ^ k ≤ w
unfolding bit
pow-le w zero h = omega arith
pow-le w (suc k) h = omega (arith, pow-suc 2 k, pow-le (w / 2) k h)

pub bit_sub_self : (w k : ℕ) → bit w k ≡ 1 → bit (w - 2 ^ k) k ≡ 0
unfolding bit
bit_sub_self w zero h = omega arith
bit_sub_self w (suc k) h =
    let half : (w - 2 ^ suc k) / 2 ≡ w / 2 - 2 ^ k =
      omega (arith, pow-suc 2 k, pow-le (w / 2) k h) in
    rw half (bit_sub_self (w / 2) k h)

pub bit_sub_ne : (w k j : ℕ) → bit w k ≡ 1 → k ≢ j → bit (w - 2 ^ k) j ≡ bit w j
unfolding bit
bit_sub_ne w zero zero h ne = absurd (ne refl)
bit_sub_ne w zero (suc j) h ne = let half : (w - 1) / 2 ≡ w / 2 = omega arith in rw half refl
bit_sub_ne w (suc k) zero h ne = omega (arith, pow-suc 2 k, pow-le (w / 2) k h)
bit_sub_ne w (suc k) (suc j) h ne =
    let half : (w - 2 ^ suc k) / 2 ≡ w / 2 - 2 ^ k =
      omega (arith, pow-suc 2 k, pow-le (w / 2) k h) in
    rw half (bit_sub_ne (w / 2) k j h (λ e. ne (ap suc e)))

-- Unless all bits are set, `trailing_ones` is the place of the lowest that is not.
pub trailing_ones_lem :
    (n w : ℕ)
    → w < 2 ^ n
    → w ≢ 2 ^ n - 1
    → (trailing_ones n w < n)
      × (bit w (trailing_ones n w) ≡ 0)
      × ((j : ℕ) → j < trailing_ones n w → bit w j ≡ 1)
unfolding bit trailing_ones
trailing_ones_lem zero w h ne = absurd (ne (omega arith))
trailing_ones_lem (suc n) w h ne = elim (ℕ_discrete (w % 2) 1) [
  | yes odd ↦
      let (below, clear, ones) =
        trailing_ones_lem n (w / 2) (omega (arith, pow-suc 2 n))
          (λ e. ne (omega (arith, pow-suc 2 n, one-le-pow n 2, e, odd))) in
      rw (eq→== (w % 2) 1 odd) (omega arith, clear, λ j h. lower j ones odd h)
  | no even ↦ rw (ne→not-== (w % 2) 1 even) (omega arith, omega arith, λ j h. absurd (omega arith))
]
  where
    lower :
        (j : ℕ) {t : ℕ}
        → ((i : ℕ) → i < t → bit (w / 2) i ≡ 1)
        → w % 2 ≡ 1
        → j < suc t
        → bit w j ≡ 1
    lower zero ones odd h = odd
    lower (suc j) ones odd h = ones j (omega arith)

pub all_ones : (n w j : ℕ) → w ≡ 2 ^ n - 1 → j < n → bit w j ≡ 1
unfolding bit
all_ones zero w j e h = absurd (omega arith)
all_ones (suc n) w zero e h = omega (arith, pow-suc 2 n, one-le-pow n 2)
all_ones (suc n) w (suc j) e h =
    all_ones n (w / 2) j (omega (arith, pow-suc 2 n, one-le-pow n 2)) (omega arith)

-- Setting a bit stays within the width.
pub bit_add-lt : (n w k : ℕ) → w < 2 ^ n → k < n → bit w k ≡ 0 → w + 2 ^ k < 2 ^ n
unfolding bit
bit_add-lt zero w k hw hk h = absurd (omega arith)
bit_add-lt (suc n) w zero hw hk h = omega (arith, pow-suc 2 n)
bit_add-lt (suc n) w (suc k) hw hk h = omega (
  arith,
  pow-suc 2 n,
  pow-suc 2 k,
  bit_add-lt n (w / 2) k (omega (arith, pow-suc 2 n)) (omega arith) h,
)
