-- ===== src/Common/Bytes.antt =====
-- Memory and disk blocks as bytes by address, and the little-endian integers in them.
use Prim.Native.Nat.{ℕ, zero, suc, ◌+◌, ◌*◌, ◌/◌, ◌%◌, ◌^◌, ◌≤◌, ◌<◌}
use mathlib.Core.Path.{◌≡◌, refl, ◌∙◌}
use mathlib.Core.Logic.{◌⊎◌, inr}
use native.Mathlib.Nat.{pow-suc}
use native.Mathlib.Omega.{arith}
use project_r_core.Common.Tests.{◌==◌, if◌then◌else◌}

abbrev pub Bytes : Type 0
Bytes = ℕ → ℕ

abbrev pub update : Bytes → ℕ → ℕ → Bytes
update m a v b = if a == b then v else m b

-- An integer of `w` bytes at address `a`.
unfoldable pub le_read : ℕ → Bytes → ℕ → ℕ
le_read zero m a = 0
le_read (suc w) m a = m a + 256 * le_read w m (a + 1)

unfoldable pub le_write : ℕ → Bytes → ℕ → ℕ → Bytes
le_write zero m a v = m
le_write (suc w) m a v = le_write w (update m a (v % 256)) (a + 1) (v / 256)

abbrev pub IsApart : ℕ → ℕ → ℕ → ℕ → Type 0
IsApart a w b w' = (a + w ≤ b) ⊎ (b + w' ≤ a)

pub le_write_apart : (w : ℕ) (m : Bytes) (a v b : ℕ) → IsApart a w b 1 → le_write w m a v b ≡ m b
unfolding le_write
le_write_apart zero m a v b h = refl
le_write_apart (suc w) m a v b h =
    le_write_apart w (update m a (v % 256)) (a + 1) (v / 256) b (omega arith) ∙ ground arith

pub le_read_ext :
    (w : ℕ) (m m' : Bytes) (a : ℕ)
    → ((b : ℕ) → a ≤ b → b < a + w → m b ≡ m' b)
    → le_read w m a ≡ le_read w m' a
unfolding le_read
le_read_ext zero m m' a h = refl
le_read_ext (suc w) m m' a h = omega (
  arith,
  h a (omega arith) (omega arith),
  le_read_ext w m m' (a + 1) (λ b lo hi. h b (omega arith) (omega arith)),
)

-- An integer is read back where it was written, and elsewhere nothing changes.
pub le_read-le_write_self :
    (w : ℕ) (m : Bytes) (a v : ℕ) → v < 256 ^ w → le_read w (le_write w m a v) a ≡ v
unfolding le_read le_write
le_read-le_write_self zero m a v h = omega arith
le_read-le_write_self (suc w) m a v h = ground (
  arith,
  pow-suc 256 w,
  le_write_apart w (update m a (v % 256)) (a + 1) (v / 256) a (inr (omega arith)),
  le_read-le_write_self w (update m a (v % 256)) (a + 1) (v / 256) (omega (arith, pow-suc 256 w)),
)

pub le_read-le_write_apart :
    (w w' : ℕ) (m : Bytes) (a b v : ℕ)
    → IsApart a w b w'
    → le_read w' (le_write w m a v) b ≡ le_read w' m b
le_read-le_write_apart w w' m a b v h =
    le_read_ext w' (le_write w m a v) m b (λ c lo hi. le_write_apart w m a v c (omega arith))

-- Every byte is one.
abbrev pub IsBytes : Bytes → Type 0
IsBytes m = (a : ℕ) → m a < 256

pub le_read-lt : (w : ℕ) (m : Bytes) (a : ℕ) → IsBytes m → le_read w m a < 256 ^ w
unfolding le_read
le_read-lt zero m a h = omega arith
le_read-lt (suc w) m a h = omega (arith, pow-suc 256 w, h a, le_read-lt w m (a + 1) h)

pub le_write-IsBytes : (w : ℕ) (m : Bytes) (a v : ℕ) → IsBytes m → IsBytes (le_write w m a v)
unfolding le_write
le_write-IsBytes zero m a v h = h
le_write-IsBytes (suc w) m a v h =
    le_write-IsBytes w (update m a (v % 256)) (a + 1) (v / 256) (λ b. ground (arith, h b))
