-- ===== src/EasyFs/Bitmap/Search.antt =====
-- src/easy-fs/src/bitmap.rs: the search for a free bit in one block.
use project_r_core.Common.{
  ℕ, zero, suc, ◌+◌, ◌-◌, ◌^◌, ◌≤◌, ◌<◌, ◌≡◌, arith, Option, none, some, ℕ_discrete, eq→==,
  ne→not-==,
}
use project_r_core.EasyFs.Disk.{Disk, IsDisk, word, word-lt}
use project_r_core.EasyFs.Bitmap.{find_pair}
use project_r_core.EasyFs.Bitmap.Bits.{bit, trailing_ones_lem, all_ones}

-- What the search in one block finds, from the integer at `pos` on.
abbrev pub Found : ℕ → ℕ → Disk → ℕ → Option (ℕ × ℕ) → Type 0
Found n pos d b none = (p k : ℕ) → pos ≤ p → p < pos + n → k < 64 → bit (word 8 d b p) k ≡ 1
Found n pos d b (some (q, t)) =
    (pos ≤ q)
    × (q < pos + n)
    × (t < 64)
    × (bit (word 8 d b q) t ≡ 0)
    × ((p k : ℕ) → pos ≤ p → p < q → k < 64 → bit (word 8 d b p) k ≡ 1)
    × ((k : ℕ) → k < t → bit (word 8 d b q) k ≡ 1)

-- An integer with all bits set before those that were searched.
Found-later :
    (n pos : ℕ) (d : Disk) (b : ℕ) (r : Option (ℕ × ℕ))
    → word 8 d b pos ≡ 2 ^ 64 - 1
    → Found n (pos + 1) d b r
    → Found (suc n) pos d b r
Found-later n pos d b none full rest = λ p k lo hi hk. elim (ℕ_discrete p pos) [
  | yes e ↦ rw e (all_ones 64 (word 8 d b pos) k full hk)
  | no ne ↦ rest p k (omega arith) (omega arith) hk
]
Found-later n pos d b (some (q, t)) full (lo, hi, ht, clear, before, ones) = (
  omega arith,
  omega arith,
  ht,
  clear,
  (λ p k lo' hi' hk. elim (ℕ_discrete p pos) [
    | yes e ↦ rw e (all_ones 64 (word 8 d b pos) k full hk)
    | no ne ↦ before p k (omega arith) hi' hk
  ]),
  ones,
)

pub find_pair_lem :
    (n pos : ℕ) (d : Disk) (b : ℕ) → IsDisk d → Found n pos d b (find_pair n pos d b)
unfolding find_pair
find_pair_lem zero pos d b h = λ p k lo hi hk. absurd (omega arith)
find_pair_lem (suc n) pos d b h = elim (ℕ_discrete (word 8 d b pos) (2 ^ 64 - 1)) [
  | yes full ↦
      rw (eq→== (word 8 d b pos) (2 ^ 64 - 1) full)
        (Found-later n pos d b (find_pair n (pos + 1) d b) full (find_pair_lem n (pos + 1) d b h))
  | no some_clear ↦
      let (below, clear, ones) =
        trailing_ones_lem 64 (word 8 d b pos) (omega (arith, word-lt 8 d b pos h)) some_clear in
      rw (ne→not-== (word 8 d b pos) (2 ^ 64 - 1) some_clear)
        (omega arith, omega arith, below, clear, (λ p k lo hi hk. absurd (omega arith)), ones)
]
