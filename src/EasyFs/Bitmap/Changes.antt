-- ===== src/EasyFs/Bitmap/Changes.antt =====
-- src/easy-fs/src/bitmap.rs: the bits of a bitmap, and the integers that hold them.
use project_r_core.Common.{
  ℕ, ◌+◌, ◌*◌, ◌/◌, ◌%◌, ◌^◌, ◌≤◌, ◌<◌, ◌≡◌, refl, ◌≢◌, ◌⊎◌, inl, inr, ap, arith, ℕ_discrete,
}
use project_r_core.EasyFs.Disk.{Disk, word, set_word, word-set_word_self, word64_ne, put_ne}
use project_r_core.EasyFs.Bitmap.{Bitmap}
use project_r_core.EasyFs.Bitmap.Bits.{bit}

-- Bit `i` of a bitmap on the disk.
unfoldable pub get_bit : Bitmap → Disk → ℕ → ℕ
get_bit bm d i = bit (word 8 d (bm.start_block_id + i / 4096) (i % 4096 / 64)) (i % 4096 % 64)

-- Bit `i` is the only change.
pub record Changes (bm : Bitmap) (d d' : Disk) (i v : ℕ) : Type 0 where
  pub changed : get_bit bm d' i ≡ v
  pub others : (j : ℕ) → j ≢ i → get_bit bm d' j ≡ get_bit bm d j
  pub outside : (b : ℕ) → (b < bm.start_block_id) ⊎ (bm.start_block_id + bm.blocks ≤ b) → d' b ≡ d b

-- Bit `i` lies in the integer `pos` of block `id`, at place `t`.
pub record Place (i id pos t : ℕ) : Type 0 where
  pub number : i / 4096 ≡ id
  pub position : i % 4096 / 64 ≡ pos
  pub inner : i % 4096 % 64 ≡ t

pub place_of : (id pos t : ℕ) → pos < 64 → t < 64 → Place (id * 4096 + pos * 64 + t) id pos t
place_of id pos t hp ht = record {
  number = omega arith;
  position = omega arith;
  inner = omega arith;
}

pub get_bit-Place :
    (bm : Bitmap) (d : Disk) {i id pos t : ℕ}
    → Place i id pos t
    → get_bit bm d i ≡ bit (word 8 d (bm.start_block_id + id) pos) t
unfolding get_bit
get_bit-Place bm d p = rw (p.number, p.position, p.inner) refl

-- Writing the integer that holds bit `i`.
pub set_word-Changes :
    (bm : Bitmap) (d : Disk) (i v w id pos t : ℕ)
    → Place i id pos t
    → i < bm.blocks * 4096
    → w < 2 ^ 64
    → bit w t ≡ v
    → ((k : ℕ) → t ≢ k → bit w k ≡ bit (word 8 d (bm.start_block_id + id) pos) k)
    → Changes bm d (set_word 8 d (bm.start_block_id + id) pos w) i v
unfolding get_bit set_word
set_word-Changes bm d i v w id pos t p hi hw here there =
    let same = word-set_word_self 8 d (bm.start_block_id + id) pos w (omega arith) in
    record {
      changed = rw (p.number, p.position, p.inner) (rw same here);
      others = λ j ne. elim (ℕ_discrete id (j / 4096)) [
        | no off ↦ ap (λ x. bit x (j % 4096 % 64)) (word64_ne d _ _ _ _ w (inl (omega arith)))
        | yes block ↦ elim (ℕ_discrete pos (j % 4096 / 64)) [
          | no off ↦ ap (λ x. bit x (j % 4096 % 64)) (word64_ne d _ _ _ _ w (inr off))
          | yes position ↦
              rw (← block, ← position)
                (rw same
                  (there (j % 4096 % 64) (λ e. ne (omega (arith, p.number, p.position, p.inner)))))
        ]
      ];
      outside = λ b out. put_ne d (bm.start_block_id + id) b _ (λ e. omega (arith, p.number));
    }
