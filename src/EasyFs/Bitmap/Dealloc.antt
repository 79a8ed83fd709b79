-- ===== src/EasyFs/Bitmap/Dealloc.antt =====
-- src/easy-fs/src/bitmap.rs: `dealloc` gives a bit back.
use project_r_core.Common.{
  ℕ, ◌+◌, ◌-◌, ◌*◌, ◌/◌, ◌%◌, ◌^◌, ◌<◌, ◌≡◌, refl, ◌⊎◌, inl, inr, arith, none, some, ℕ_discrete,
  lt→ltb, le→not-ltb,
}
use native.Mathlib.Nat.{one-le-pow}
use project_r_core.EasyFs.Disk.{Disk, IsDisk, word, set_word, word-lt}
use project_r_core.EasyFs.Bitmap.{Bitmap, decomposition, dealloc, maximum}
use project_r_core.EasyFs.Bitmap.Bits.{bit, bit-le, bit_and_pow, bit_sub_self, bit_sub_ne}
use project_r_core.EasyFs.Bitmap.Changes.{get_bit, Changes, Place, set_word-Changes}

-- `dealloc` of a bit that is set resets that bit and no other; of one that is not set, it panics.
pub dealloc_bit :
    (bm : Bitmap) (d : Disk) (i : ℕ)
    → IsDisk d
    → i < maximum bm
    → ((get_bit bm d i ≡ 1) × ((d' : Disk) × (dealloc bm d i ≡ some d') × Changes bm d d' i 0))
      ⊎ ((get_bit bm d i ≡ 0) × (dealloc bm d i ≡ none))
unfolding dealloc get_bit maximum decomposition
dealloc_bit bm d i h hi =
    let b = bm.start_block_id + i / 4096 in
    let pos = i % 4096 / 64 in
    let t = i % 4096 % 64 in
    let w = word 8 d b pos in
    let same : i / 4096 + bm.start_block_id ≡ b = omega arith in
    let p : Place i (i / 4096) pos t = record { number = refl; position = refl; inner = refl } in
    elim (ℕ_discrete (bit w t) 1) [
      | yes set ↦ inl (
        set,
        (
          set_word 8 d b pos (w - 2 ^ t),
          rw (same, bit_and_pow w t, set)
              (rw (lt→ltb 0 (1 * 2 ^ t) (omega (arith, one-le-pow t 2))) refl),
          set_word-Changes bm d i 0 (w - 2 ^ t) (i / 4096) pos t p hi
              (omega (arith, word-lt 8 d b pos h)) (bit_sub_self w t set)
              (λ k ne. bit_sub_ne w t k set ne),
        ),
      )
      | no clear ↦
          let zero' : bit w t ≡ 0 = omega (arith, bit-le w t) in
          inr (
            zero',
            rw (same, bit_and_pow w t, zero') (rw (le→not-ltb 0 (0 * 2 ^ t) (omega arith)) refl),
          )
    ]
