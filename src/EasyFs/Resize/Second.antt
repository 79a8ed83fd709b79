-- ===== src/EasyFs/Resize/Second.antt =====
-- src/easy-fs/src/layout.rs: the loop of `increase_size` over the block `indirect2`.
use project_r_core.Common.{
  ℕ, zero, suc, ◌+◌, ◌-◌, ◌*◌, ◌/◌, ◌%◌, ◌^◌, ◌≤◌, ◌<◌, ◌≡◌, refl, ◌≢◌, ◌⊎◌, inl, inr, ◌∙◌, sym,
  subst, arith, Option, some, List, ◌∷◌, ℕ_discrete, dec_lt, if_true, if_false, length, get_or,
  IsDistinct, eq→==, ne→not-==,
}
use project_r_core.EasyFs.Disk.{Disk, word, set_word, word-set_word_self, word32_ne}
use project_r_core.EasyFs.Layout.{DiskInode, DiskInodeType}
use project_r_core.EasyFs.Resize.{Growth, next_block, alloc_indirect2, alloc_entry, fill_entry}
use project_r_core.EasyFs.Resize.Index.{
  slot, slot-direct, slot-indirect1, slot-word1, slot-indirect2, slot-second, slot-entry,
  slot-word2, second_part,
}
use project_r_core.EasyFs.Resize.Fill.{kept1}
use project_r_core.EasyFs.Resize.Enter.{Indexed, Fills, Next-Next, enter, slots_apart}

-- The field `indirect2` does not show before its place.
kept_field :
    (inode : DiskInode) (b : ℕ) (d : Disk) (i : ℕ)
    → i < 157
    → slot (record inode { indirect2 = b }) d i ≡ slot inode d i
kept_field inode b d i h = elim (dec_lt i 28) [
  | yes low ↦ slot-direct (record inode { indirect2 = b }) d i low ∙ sym (slot-direct inode d i low)
  | no high ↦ elim (ℕ_discrete i 28) [
    | yes e ↦
        rw e (slot-indirect1 (record inode { indirect2 = b }) d ∙ sym (slot-indirect1 inode d))
    | no ne ↦
        slot-word1 (record inode { indirect2 = b }) d i (omega arith) h
        ∙ sym (slot-word1 inode d i (omega arith) h)
  ]
]

-- The index up to place `p` of the last part, when the words that it goes through do not change.
kept2 :
    (inode : DiskInode) (d d' : Disk) (p : ℕ)
    → ((j : ℕ) → j < 128 → word 4 d' inode.indirect1 j ≡ word 4 d inode.indirect1 j)
    → ((i : ℕ)
        → i + 158 < p
        → word 4 d' inode.indirect2 (i / 129) ≡ word 4 d inode.indirect2 (i / 129))
    → ((i : ℕ)
        → i + 158 < p
        → i % 129 ≢ 0
        → let entry = word 4 d inode.indirect2 (i / 129) in
          word 4 d' entry (i % 129 - 1) ≡ word 4 d entry (i % 129 - 1))
    → (i : ℕ) → i < p
    → slot inode d' i ≡ slot inode d i
kept2 inode d d' p first entries words i h = elim (dec_lt i 157) [
  | yes low ↦ kept1 inode d d' i 128 (omega arith) (omega arith) (λ j k. first j k)
  | no high ↦ elim (ℕ_discrete i 157) [
    | yes e ↦ rw e (slot-indirect2 inode d' ∙ sym (slot-indirect2 inode d))
    | no ne ↦
        slot-second inode d' i (omega arith)
        ∙ second (i - 158) (omega arith)
        ∙ sym (slot-second inode d i (omega arith))
  ]
]
  where
    second : (q : ℕ) → q + 158 < p → second_part inode d' q ≡ second_part inode d q
    second q hq = elim (ℕ_discrete (q % 129) 0) [
      | yes e ↦ rw (eq→== (q % 129) 0 e) (entries q hq)
      | no ne ↦ rw (ne→not-== (q % 129) 0 ne) (rw (entries q hq) (words q hq ne))
    ]

alloc_indirect2_step :
    (g : Growth) (b : ℕ) (rest : List ℕ)
    → g.new_blocks ≡ b ∷ rest
    → g.current_blocks ≡ 128
    → alloc_indirect2 g
      ≡ some (record g { inode = record g.inode { indirect2 = b }; new_blocks = rest })
unfolding alloc_indirect2 next_block
alloc_indirect2_step g b rest e at = if_true _ _ (eq→== g.current_blocks 128 at) ∙ rw e refl

alloc_entry_step :
    (g : Growth) (b : ℕ) (rest : List ℕ) (a0 : ℕ)
    → g.new_blocks ≡ b ∷ rest
    → alloc_entry a0 0 g
      ≡ some (record g { disk = set_word 4 g.disk g.inode.indirect2 a0 b; new_blocks = rest })
unfolding alloc_entry next_block
alloc_entry_step g b rest a0 e = rw e refl

fill_entry_step :
    (g : Growth) (b : ℕ) (rest : List ℕ) (a0 b0 : ℕ)
    → g.new_blocks ≡ b ∷ rest
    → fill_entry a0 b0 g
      ≡ some (record g {
        disk = set_word 4 g.disk (word 4 g.disk g.inode.indirect2 a0) b0 b;
        new_blocks = rest;
      })
unfolding fill_entry next_block
fill_entry_step g b rest a0 b0 e = rw e refl

-- The place of the next block, when `a0` blocks behind `indirect2` are full and the next has `b0`.
unfoldable pub place : ℕ → ℕ → ℕ
place a0 zero = 158 + 129 * a0
place a0 (suc b0) = 160 + 129 * a0 + b0

module _ (all : List ℕ) (size : ℕ) (kind : DiskInodeType) (distinct : IsDistinct all)
    (narrow : (i : ℕ) → i < length all → get_or all i 0 < 2 ^ 32) where
  abbrev pub Ends : ℕ → Option Growth → Type 0
  Ends p r = (g : Growth) × (r ≡ some g) × Indexed all size kind p g

  module _ {p : ℕ} {g : Growth} (x : Indexed all size kind p g) where
    apart12 : 157 < p → g.inode.indirect1 ≢ g.inode.indirect2
    apart12 h e =
        slots_apart all size kind distinct narrow x 28 157 (omega arith) h
          (slot-indirect1 g.inode g.disk ∙ e ∙ sym (slot-indirect2 g.inode g.disk))

    apart1 : (a : ℕ) → 158 + 129 * a < p → g.inode.indirect1 ≢ word 4 g.disk g.inode.indirect2 a
    apart1 a h e =
        slots_apart all size kind distinct narrow x 28 (158 + 129 * a) (omega arith) h
          (slot-indirect1 g.inode g.disk ∙ e ∙ sym (slot-entry g.inode g.disk a))

    apart2 : (a : ℕ) → 158 + 129 * a < p → g.inode.indirect2 ≢ word 4 g.disk g.inode.indirect2 a
    apart2 a h e =
        slots_apart all size kind distinct narrow x 157 (158 + 129 * a) (omega arith) h
          (slot-indirect2 g.inode g.disk ∙ e ∙ sym (slot-entry g.inode g.disk a))

    apart22 :
        (a a' : ℕ)
        → a' < a
        → 158 + 129 * a < p
        → word 4 g.disk g.inode.indirect2 a' ≢ word 4 g.disk g.inode.indirect2 a
    apart22 a a' lt h e =
        slots_apart all size kind distinct narrow x (158 + 129 * a') (158 + 129 * a) (omega arith) h
          (slot-entry g.inode g.disk a' ∙ e ∙ sym (slot-entry g.inode g.disk a))

  -- The field `indirect2`.
  pub alloc_indirect2-Fills :
      (g : Growth)
      → Indexed all size kind 157 g
      → g.current_blocks ≡ 128
      → 158 ≤ length all
      → Fills all size kind distinct narrow 158 128 (alloc_indirect2 g)
  unfolding alloc_indirect2 next_block
  alloc_indirect2-Fills g x at left =
      let b = Next-Next all size kind distinct narrow x (omega arith) in
      let g' : Growth = record {
        current_blocks = g.current_blocks;
        inode = record g.inode { indirect2 = b.block };
        disk = g.disk;
        new_blocks = b.rest;
      } in
      (
        g',
        alloc_indirect2_step g b.block b.rest b.blocks at,
        enter all size kind distinct narrow g' b x x.direct28 refl refl refl
            (λ i h. kept_field g.inode b.block g.disk i h) (slot-indirect2 g'.inode g.disk),
        at,
      )

  pub alloc_entry-Ends :
      (a0 b0 : ℕ) (g : Growth)
      → Indexed all size kind (place a0 b0) g
      → a0 < 128
      → 159 + 129 * a0 + b0 ≤ length all
      → Ends (159 + 129 * a0 + b0) (alloc_entry a0 b0 g)
  unfolding place alloc_entry
  alloc_entry-Ends a0 zero g x ha left =
      let b = Next-Next all size kind distinct narrow x (omega arith) in
      let disk' = set_word 4 g.disk g.inode.indirect2 a0 b.block in
      let g' : Growth = record {
        current_blocks = g.current_blocks;
        inode = g.inode;
        disk = disk';
        new_blocks = b.rest;
      } in
      let x' : Indexed all size kind (suc (158 + 129 * a0)) g' =
        enter all size kind distinct narrow g' b x x.direct28 refl refl refl
          (kept2 g.inode g.disk disk' (158 + 129 * a0)
            (λ j h. word32_ne g.disk _ _ _ _ b.block (inl (λ e. apart12 x (omega arith) (sym e))))
            (λ i h. word32_ne g.disk _ _ _ _ b.block (inr (omega arith)))
            (λ i h ne. word32_ne g.disk _ _ _ _ b.block (inl (apart2 x (i / 129) (omega arith)))))
          (slot-entry g.inode disk' a0
            ∙ word-set_word_self 4 g.disk g.inode.indirect2 a0 b.block b.fits) in
      (
        g',
        alloc_entry_step g b.block b.rest a0 b.blocks,
        subst (λ q. Indexed all size kind q g') (omega arith) x',
      )
  alloc_entry-Ends a0 (suc b0) g x ha left = (
    g,
    if_false _ _ (ne→not-== (suc b0) 0 (omega arith)),
    subst (λ q. Indexed all size kind q g) (omega arith) x,
  )

  pub fill_entry-Ends :
      (a0 b0 : ℕ) (g : Growth)
      → Indexed all size kind (159 + 129 * a0 + b0) g
      → a0 < 128
      → b0 < 128
      → 160 + 129 * a0 + b0 ≤ length all
      → Ends (160 + 129 * a0 + b0) (fill_entry a0 b0 g)
  fill_entry-Ends a0 b0 g x ha hb left =
      let b = Next-Next all size kind distinct narrow x (omega arith) in
      let block = word 4 g.disk g.inode.indirect2 a0 in
      let disk' = set_word 4 g.disk block b0 b.block in
      let g' : Growth = record {
        current_blocks = g.current_blocks;
        inode = g.inode;
        disk = disk';
        new_blocks = b.rest;
      } in
      let entry_kept : (a : ℕ)
          → word 4 disk' g.inode.indirect2 a ≡ word 4 g.disk g.inode.indirect2 a =
        λ a. word32_ne g.disk _ _ _ _ b.block (inl (λ e. apart2 x a0 (omega arith) (sym e))) in
      let x' : Indexed all size kind (suc (159 + 129 * a0 + b0)) g' =
        enter all size kind distinct narrow g' b x x.direct28 refl refl refl
          (kept2 g.inode g.disk disk' (159 + 129 * a0 + b0)
            (λ j h. word32_ne g.disk _ _ _ _ b.block (inl (λ e. apart1 x a0 (omega arith) (sym e))))
            (λ i h. entry_kept (i / 129))
            (λ i h ne. word32_ne g.disk _ _ _ _ b.block (other_word i h ne)))
          (slot-word2 g.inode disk' a0 b0 hb
            ∙ rw (entry_kept a0) (word-set_word_self 4 g.disk block b0 b.block b.fits)) in
      (
        g',
        fill_entry_step g b.block b.rest a0 b0 b.blocks,
        subst (λ q. Indexed all size kind q g') (omega arith) x',
      )
    where
      other_word :
          (i : ℕ)
          → i + 158 < 159 + 129 * a0 + b0
          → i % 129 ≢ 0
          → (word 4 g.disk g.inode.indirect2 a0 ≢ word 4 g.disk g.inode.indirect2 (i / 129))
            ⊎ (b0 ≢ i % 129 - 1)
      other_word i h ne = elim (ℕ_discrete (i / 129) a0) [
        | yes e ↦ inr (omega arith)
        | no off ↦ inl (λ e. apart22 x a0 (i / 129) (omega arith) (omega arith) (sym e))
      ]
