-- ===== src/EasyFs/Bitmap.antt =====
-- src/easy-fs/src/bitmap.rs: the bitmaps of inodes and of data blocks.
pub mod Bits
pub mod Search
pub mod Changes
pub mod Alloc
pub mod Dealloc
mod Tests
use project_r_core.Common.{
  ℕ, zero, suc, ◌+◌, ◌-◌, ◌*◌, ◌/◌, ◌%◌, ◌^◌, bit_and, bit_or, Bool, true, false, Option, none,
  some, ◌==◌, ltb, if◌then◌else◌, assert, ◌>>=◌, ◌>>◌,
}
use project_r_core.EasyFs.Disk.{Disk, block_size, word, set_word}

abbrev pub block_bits : ℕ
block_bits = block_size * 8

-- BITMAP_SIZE
abbrev pub bitmap_size : ℕ
bitmap_size = 64

-- BITMAP_BLOCK_SIZE
abbrev pub bitmap_block_size : ℕ
bitmap_block_size = 64

abbrev u64_max : ℕ
u64_max = 2 ^ 64 - 1

pub record Bitmap : Type 0 where
  pub start_block_id : ℕ
  pub blocks : ℕ

-- u64::trailing_ones, of the low `n` bits.
pub trailing_ones : ℕ → ℕ → ℕ
trailing_ones zero w = 0
trailing_ones (suc n) w = let rest = trailing_ones n (w / 2) in if w % 2 == 1 then suc rest else 0

-- The `find` and `map` over the integers of a block, from the one at `pos` on.
pub find_pair : ℕ → ℕ → Disk → ℕ → Option (ℕ × ℕ)
find_pair zero pos d b = none
find_pair (suc n) pos d b =
    let rest = find_pair n (pos + 1) d b in
    let bitmap = word 8 d b pos in
    if bitmap == u64_max then rest else some (pos, trailing_ones 64 bitmap)

-- The closure that `alloc` passes to `modify`, with the number of the block in the bitmap.
mark : Disk → ℕ → ℕ → Option (ℕ × ℕ) → Option ℕ × Disk
mark d b bitmap_block_id none = (none, d)
mark d b bitmap_block_id (some (pos, inner_pos)) = (
  some (bitmap_block_id * block_bits + pos * bitmap_size + inner_pos),
  set_word 8 d b pos (bit_or (word 8 d b pos) (2 ^ inner_pos % 2 ^ 64)),
)

-- The loop of `alloc`, with `n` blocks left; it stops at the first bit found.
alloc_loop : ℕ → ℕ → Bitmap → Disk → Option ℕ × Disk
unfolding find_pair mark
alloc_loop zero id bm d = (none, d)
alloc_loop (suc n) id bm d =
    let rest = alloc_loop n (id + 1) bm d in
    elim (find_pair bitmap_block_size 0 d (bm.start_block_id + id)) [
      | none ↦ rest
      | some pair ↦ mark d (bm.start_block_id + id) id (some pair)
    ]

pub alloc : Bitmap → Disk → Option ℕ × Disk
unfolding alloc_loop
alloc bm d = alloc_loop bm.blocks 0 bm d

pub decomposition : ℕ → ℕ × ℕ × ℕ
decomposition bit = (bit / block_bits, bit % block_bits / 64, bit % block_bits % 64)

pub dealloc : Bitmap → Disk → ℕ → Option Disk
unfolding decomposition
dealloc bm d bit =
    let (block_id, bitmap_pos, bit_pos) = decomposition bit in
    let b = block_id + bm.start_block_id in
    assert (ltb 0 (bit_and (word 8 d b bitmap_pos) (2 ^ bit_pos)))
    >> some (set_word 8 d b bitmap_pos (word 8 d b bitmap_pos - 2 ^ bit_pos))

unfoldable pub maximum : Bitmap → ℕ
maximum bm = bm.blocks * block_bits
