-- ===== src/EasyFs/Resize/Fill.antt =====
-- src/easy-fs/src/layout.rs: each loop of `increase_size` enters the next blocks of the iterator at the
-- next places of the index.
use project_r_core.Common.{
  ℕ, zero, suc, ◌+◌, ◌-◌, ◌^◌, ◌≤◌, ◌<◌, ◌≡◌, refl, inr, ◌∙◌, ap, sym, subst, arith, Option, some,
  List, ◌∷◌, ℕ_discrete, dec_lt, if_true, length, get_or, set, length-set, get_or-set_self,
  get_or-set_ne, IsDistinct, eq→==,
}
use project_r_core.EasyFs.Disk.{Disk, word, set_word, word-set_word_self, word32_ne}
use project_r_core.EasyFs.Layout.{DiskInode, DiskInodeType}
use project_r_core.EasyFs.Resize.{Growth, next_block, fill_direct, alloc_indirect1, fill_indirect1}
use project_r_core.EasyFs.Resize.Index.{slot, slot-direct, slot-indirect1, slot-word1}
use project_r_core.EasyFs.Resize.Enter.{Indexed, Fills, Next-Next, enter, at_place}

-- The index up to entry `c` of the block `indirect1`, when no earlier entry changes.
pub kept1 :
    (inode : DiskInode) (d d' : Disk) (i c : ℕ)
    → i < 29 + c
    → c ≤ 128
    → ((j : ℕ) → j < c → word 4 d' inode.indirect1 j ≡ word 4 d inode.indirect1 j)
    → slot inode d' i ≡ slot inode d i
kept1 inode d d' i c h bound same = elim (dec_lt i 28) [
  | yes low ↦ slot-direct inode d' i low ∙ sym (slot-direct inode d i low)
  | no high ↦ elim (ℕ_discrete i 28) [
    | yes e ↦ rw e (slot-indirect1 inode d' ∙ sym (slot-indirect1 inode d))
    | no ne ↦
        slot-word1 inode d' i (omega arith) (omega arith)
        ∙ same (i - 29) (omega arith)
        ∙ sym (slot-word1 inode d i (omega arith) (omega arith))
  ]
]

-- One round of each loop, when the iterator gives block `b`.
module _ (g : Growth) (b : ℕ) (rest : List ℕ) (e : g.new_blocks ≡ b ∷ rest) where
  fill_direct_step :
      (n : ℕ)
      → fill_direct (suc n) g
        ≡ fill_direct n (record g {
          current_blocks = g.current_blocks + 1;
          inode = record g.inode { direct = set g.inode.direct g.current_blocks b };
          new_blocks = rest;
        })
  unfolding fill_direct next_block
  fill_direct_step n = rw e refl

  alloc_indirect1_step :
      g.current_blocks ≡ 28
      → alloc_indirect1 g
        ≡ some (record g { inode = record g.inode { indirect1 = b }; new_blocks = rest })
  unfolding alloc_indirect1 next_block
  alloc_indirect1_step at = if_true _ _ (eq→== g.current_blocks 28 at) ∙ rw e refl

  fill_indirect1_step :
      (n : ℕ)
      → fill_indirect1 (suc n) g
        ≡ fill_indirect1 n (record g {
          current_blocks = g.current_blocks + 1;
          disk = set_word 4 g.disk g.inode.indirect1 g.current_blocks b;
          new_blocks = rest;
        })
  unfolding fill_indirect1 next_block
  fill_indirect1_step n = rw e refl

module _ (all : List ℕ) (size : ℕ) (kind : DiskInodeType) (distinct : IsDistinct all)
    (narrow : (i : ℕ) → i < length all → get_or all i 0 < 2 ^ 32) where
  abbrev Fills' : ℕ → ℕ → Option Growth → Type 0
  Fills' = Fills all size kind distinct narrow

  -- Entries of `direct`.
  pub fill_direct-Fills :
      (n p : ℕ) (g : Growth)
      → Indexed all size kind p g
      → g.current_blocks ≡ p
      → p + n ≤ 28
      → p + n ≤ length all
      → Fills' (p + n) (p + n) (fill_direct n g)
  unfolding fill_direct next_block
  fill_direct-Fills zero p g x at bound left =
      at_place all size kind distinct narrow (omega arith) (g, refl, x, omega (arith, at))
  fill_direct-Fills (suc n) p g x at bound left =
      let b = Next-Next all size kind distinct narrow x (omega arith) in
      let set_direct = set g.inode.direct g.current_blocks b.block in
      let g' : Growth = record {
        current_blocks = g.current_blocks + 1;
        inode = record g.inode { direct = set_direct };
        disk = g.disk;
        new_blocks = b.rest;
      } in
      let x' : Indexed all size kind (suc p) g' =
        enter all size kind distinct narrow g' b x
          (length-set g.inode.direct g.current_blocks b.block ∙ x.direct28) refl refl refl
          (λ i h.
            slot-direct g'.inode g.disk i (omega arith)
            ∙ get_or-set_ne g.inode.direct g.current_blocks i b.block 0 (omega (arith, at))
            ∙ sym (slot-direct g.inode g.disk i (omega arith)))
          (slot-direct g'.inode g.disk p (omega arith)
            ∙ ap (λ i. get_or set_direct i 0) (sym at)
            ∙ get_or-set_self g.inode.direct g.current_blocks b.block 0
                (omega (arith, at, x.direct28))) in
      let (g2, e, x2, at2) =
        fill_direct-Fills n (suc p) g' x' (omega (arith, at)) (omega arith) (omega arith) in
      (
        g2,
        fill_direct_step g b.block b.rest b.blocks n ∙ e,
        subst (λ q. Indexed all size kind q g2) (omega arith) x2,
        omega (arith, at2),
      )

  -- The field `indirect1`.
  pub alloc_indirect1-Fills :
      (g : Growth)
      → Indexed all size kind 28 g
      → g.current_blocks ≡ 28
      → 29 ≤ length all
      → Fills' 29 28 (alloc_indirect1 g)
  unfolding alloc_indirect1 next_block
  alloc_indirect1-Fills g x at left =
      let b = Next-Next all size kind distinct narrow x (omega arith) in
      let g' : Growth = record {
        current_blocks = g.current_blocks;
        inode = record g.inode { indirect1 = b.block };
        disk = g.disk;
        new_blocks = b.rest;
      } in
      (
        g',
        alloc_indirect1_step g b.block b.rest b.blocks at,
        enter all size kind distinct narrow g' b x x.direct28 refl refl refl
            (λ i h. slot-direct g'.inode g.disk i h ∙ sym (slot-direct g.inode g.disk i h))
            (slot-indirect1 g'.inode g.disk),
        at,
      )

  -- Entries of the block `indirect1`, of which `c` are there.
  pub fill_indirect1-Fills :
      (n c : ℕ) (g : Growth)
      → Indexed all size kind (29 + c) g
      → g.current_blocks ≡ c
      → c + n ≤ 128
      → 29 + c + n ≤ length all
      → Fills' (29 + c + n) (c + n) (fill_indirect1 n g)
  unfolding fill_indirect1 next_block
  fill_indirect1-Fills zero c g x at bound left =
      at_place all size kind distinct narrow (omega arith) (g, refl, x, omega (arith, at))
  fill_indirect1-Fills (suc n) c g x at bound left =
      let b = Next-Next all size kind distinct narrow x (omega arith) in
      let disk' = set_word 4 g.disk g.inode.indirect1 g.current_blocks b.block in
      let g' : Growth = record {
        current_blocks = g.current_blocks + 1;
        inode = g.inode;
        disk = disk';
        new_blocks = b.rest;
      } in
      let x' : Indexed all size kind (suc (29 + c)) g' =
        enter all size kind distinct narrow g' b x x.direct28 refl refl refl
          (λ i h.
            kept1 g.inode g.disk disk' i c h (omega arith)
              (λ j hj. word32_ne g.disk _ _ _ _ b.block (inr (omega (arith, at)))))
          (slot-word1 g.inode disk' (29 + c) (omega arith) (omega arith)
            ∙ ap (word 4 disk' g.inode.indirect1) (omega (arith, at))
            ∙ word-set_word_self 4 g.disk g.inode.indirect1 g.current_blocks b.block b.fits) in
      let (g2, e, x2, at2) =
        fill_indirect1-Fills n (suc c) g' (subst (λ q. Indexed all size kind q g') (omega arith) x')
          (omega (arith, at)) (omega arith) (omega arith) in
      (
        g2,
        fill_indirect1_step g b.block b.rest b.blocks n ∙ e,
        subst (λ q. Indexed all size kind q g2) (omega arith) x2,
        omega (arith, at2),
      )
