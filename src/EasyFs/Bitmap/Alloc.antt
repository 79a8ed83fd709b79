-- ===== src/EasyFs/Bitmap/Alloc.antt =====
-- src/easy-fs/src/bitmap.rs: `alloc` takes the first free bit.
use project_r_core.Common.{
  ℕ, zero, suc, ◌+◌, ◌*◌, ◌/◌, ◌%◌, ◌^◌, ◌≤◌, ◌<◌, ◌≡◌, refl, ◌⊎◌, inl, inr, ◌∙◌, ap, arith, bit_or,
  Option, none, some, dec_lt,
}
use project_r_core.EasyFs.Disk.{Disk, IsDisk, word, word-lt}
use project_r_core.EasyFs.Bitmap.{Bitmap, find_pair, mark, alloc_loop, alloc, maximum}
use project_r_core.EasyFs.Bitmap.Bits.{bit_or_pow, bit_add_self, bit_add_ne, bit_add-lt}
use project_r_core.EasyFs.Bitmap.Search.{Found, find_pair_lem}
use project_r_core.EasyFs.Bitmap.Changes.{
  get_bit, Changes, Place, place_of, get_bit-Place, set_word-Changes,
}

-- `alloc` from block `id` on: it fails if all the bits are set.
abbrev Allocated : ℕ → ℕ → Bitmap → Disk → Option ℕ × Disk → Type 0
Allocated n id bm d (none, d') =
    (d' ≡ d) × ((j : ℕ) → id * 4096 ≤ j → j < (id + n) * 4096 → get_bit bm d j ≡ 1)
Allocated n id bm d (some i, d') =
    (id * 4096 ≤ i)
    × (i < (id + n) * 4096)
    × (get_bit bm d i ≡ 0)
    × ((j : ℕ) → id * 4096 ≤ j → j < i → get_bit bm d j ≡ 1)
    × Changes bm d d' i 1

mark-Allocated :
    (n id : ℕ) (bm : Bitmap) (d : Disk) (q : ℕ × ℕ)
    → IsDisk d
    → id + suc n ≤ bm.blocks
    → Found 64 0 d (bm.start_block_id + id) (some q)
    → Allocated (suc n) id bm d (mark d (bm.start_block_id + id) id (some q))
unfolding mark maximum
mark-Allocated n id bm d (pos, t) h bound (lo, hi, ht, clear, before, ones) =
    let i = id * 4096 + pos * 64 + t in
    let b = bm.start_block_id + id in
    let w = word 8 d b pos in
    let fits : w + 2 ^ t < 2 ^ 64 =
      bit_add-lt 64 w t (omega (arith, word-lt 8 d b pos h)) ht clear in
    let p : Place i id pos t = place_of id pos t (omega arith) ht in
    let earlier : (j : ℕ) → id * 4096 ≤ j → j < i → get_bit bm d j ≡ 1 = λ j from to.
      let p' : Place j id (j % 4096 / 64) (j % 4096 % 64) = record {
        number = omega arith;
        position = refl;
        inner = refl;
      } in
      get_bit-Place bm d p' ∙ elim (dec_lt (j % 4096 / 64) pos) [
        | yes lower ↦ before (j % 4096 / 64) (j % 4096 % 64) (omega arith) lower (omega arith)
        | no not_lower ↦
            let same : j % 4096 / 64 ≡ pos = omega arith in
            rw same (ones (j % 4096 % 64) (omega arith))
      ] in
    let bits : bit_or w (2 ^ t % 2 ^ 64) ≡ w + 2 ^ t =
      ap (bit_or w) (omega (arith, fits)) ∙ bit_or_pow w t clear in
    (
      omega arith,
      omega arith,
      get_bit-Place bm d p ∙ clear,
      (λ j from to. earlier j from to),
      rw bits (
          set_word-Changes bm d i 1 (w + 2 ^ t) id pos t p (omega arith) fits
            (bit_add_self w t clear) (λ k ne. bit_add_ne w t k clear ne)),
    )

in_block :
    (id : ℕ) (bm : Bitmap) (d : Disk) (j : ℕ)
    → Found 64 0 d (bm.start_block_id + id) none
    → id * 4096 ≤ j
    → j < (id + 1) * 4096
    → get_bit bm d j ≡ 1
in_block id bm d j full from to =
    let p : Place j id (j % 4096 / 64) (j % 4096 % 64) = record {
      number = omega arith;
      position = refl;
      inner = refl;
    } in
    get_bit-Place bm d p
    ∙ full (j % 4096 / 64) (j % 4096 % 64) (omega arith) (omega arith) (omega arith)

-- The rest of the search, behind a block with all bits set.
later-Allocated :
    (n id : ℕ) (bm : Bitmap) (d : Disk) (r : Option ℕ × Disk)
    → Found 64 0 d (bm.start_block_id + id) none
    → Allocated n (id + 1) bm d r
    → Allocated (suc n) id bm d r
later-Allocated n id bm d (none, d') full (same, set) = (
  same,
  λ j from to. elim (dec_lt j ((id + 1) * 4096)) [
    | yes here ↦ in_block id bm d j full from here
    | no later ↦ set j (omega arith) (omega arith)
  ],
)
later-Allocated n id bm d (some i, d') full (from, to, clear, before, changes) = (
  omega arith,
  omega arith,
  clear,
  (λ j from' to'. elim (dec_lt j ((id + 1) * 4096)) [
    | yes here ↦ in_block id bm d j full from' here
    | no later ↦ before j (omega arith) (omega arith)
  ]),
  changes,
)

alloc_loop-Allocated :
    (n id : ℕ) (bm : Bitmap) (d : Disk)
    → IsDisk d
    → id + n ≤ bm.blocks
    → Allocated n id bm d (alloc_loop n id bm d)
unfolding alloc_loop
alloc_loop-Allocated zero id bm d h bound = (refl, λ j from to. absurd (omega arith))
alloc_loop-Allocated (suc n) id bm d h bound =
    split (find_pair 64 0 d (bm.start_block_id + id))
      (find_pair_lem 64 0 d (bm.start_block_id + id) h)
      (alloc_loop-Allocated n (id + 1) bm d h (omega arith))
  where
    split :
        (r : Option (ℕ × ℕ))
        → Found 64 0 d (bm.start_block_id + id) r
        → Allocated n (id + 1) bm d (alloc_loop n (id + 1) bm d)
        → Allocated (suc n) id bm d (elim r [
          | none ↦ alloc_loop n (id + 1) bm d
          | some pair ↦ mark d (bm.start_block_id + id) id (some pair)
        ])
    split none found rest = later-Allocated n id bm d (alloc_loop n (id + 1) bm d) found rest
    split (some q) found rest = mark-Allocated n id bm d q h bound found

-- `alloc` returns the number of the lowest bit that is not set, sets that bit and no other, and
-- writes no block outside the bitmap; it fails only if every bit up to `maximum` is set, and then
-- changes nothing.
pub alloc_first :
    (bm : Bitmap) (d : Disk)
    → IsDisk d
    → (((alloc bm d).0 ≡ none)
        × ((alloc bm d).1 ≡ d)
        × ((j : ℕ) → j < maximum bm → get_bit bm d j ≡ 1))
      ⊎ ((i : ℕ) × ((alloc bm d).0 ≡ some i)
          × (i < maximum bm)
          × (get_bit bm d i ≡ 0)
          × ((j : ℕ) → j < i → get_bit bm d j ≡ 1)
          × Changes bm d (alloc bm d).1 i 1)
unfolding alloc maximum
alloc_first bm d h =
    split (alloc_loop bm.blocks 0 bm d) (alloc_loop-Allocated bm.blocks 0 bm d h (omega arith))
  where
    split :
        (r : Option ℕ × Disk)
        → Allocated bm.blocks 0 bm d r
        → ((r.0 ≡ none) × (r.1 ≡ d) × ((j : ℕ) → j < bm.blocks * 4096 → get_bit bm d j ≡ 1))
          ⊎ ((i : ℕ) × (r.0 ≡ some i)
              × (i < bm.blocks * 4096)
              × (get_bit bm d i ≡ 0)
              × ((j : ℕ) → j < i → get_bit bm d j ≡ 1)
              × Changes bm d r.1 i 1)
    split (none, d') (same, set) = inl (refl, same, λ j to. set j (omega arith) (omega arith))
    split (some i, d') (from, to, clear, before, changes) =
        inr (i, refl, omega arith, clear, (λ j to'. before j (omega arith) to'), changes)
