-- ===== src/EasyFs/Resize/Increase.antt =====
-- src/easy-fs/src/layout.rs: `increase_size` enters all of the new blocks, in their order.
use project_r_core.Common.{
  not-leb→lt, le→leb, lt→not-leb, min, leb, ℕ, zero, suc, ◌+◌, ◌-◌, ◌*◌, ◌/◌, ◌^◌, ◌≤◌, ◌<◌, ◌≡◌,
  refl, inl, inr, ◌∙◌, ap, ap₂, sym, subst, arith, some, List, [], ◌∷◌, ◌++◌, if◌then◌else◌, dec_lt,
  if_true, if_false, length, length-append, get_or, IsDistinct, All, Bool-cases,
}
use project_r_core.EasyFs.Disk.{Disk}
use project_r_core.EasyFs.Layout.{
  DiskInode, DiskInodeType, data_blocks, data_blocks_of, total_blocks, blocks_num_needed,
}
use project_r_core.EasyFs.Resize.{Growth, fill_direct, grow, grow_indirect1, increase_size}
use project_r_core.EasyFs.Resize.Index.{index_size, slot, slots, length-slots, slots_ext}
use project_r_core.EasyFs.Resize.Enter.{Indexed}
use project_r_core.EasyFs.Resize.Second.{Ends}
use project_r_core.EasyFs.Resize.Fill.{fill_direct-Fills}
use project_r_core.EasyFs.Resize.Grow.{index_size_low, grow_indirect1-Ends}

grow_step :
    (total : ℕ) (g g' : Growth)
    → fill_direct (min total 28 - g.current_blocks) g ≡ some g'
    → grow total g ≡ (if leb total 28 then some g' else grow_indirect1 total g')
unfolding grow
grow_step total g g' e = rw e refl

fill_none : (g : Growth) → fill_direct 0 g ≡ some g
unfolding fill_direct
fill_none g = refl

module _ (all : List ℕ) (size : ℕ) (kind : DiskInodeType) (distinct : IsDistinct all)
    (narrow : (i : ℕ) → i < length all → get_or all i 0 < 2 ^ 32) where
  -- From `n` data blocks to `total`.
  grow-Ends :
      (n total : ℕ) (g : Growth)
      → Indexed all size kind (index_size n) g
      → g.current_blocks ≡ n
      → n ≤ total
      → total ≤ 16540
      → index_size total ≤ length all
      → Ends all size kind distinct narrow (index_size total) (grow total g)
  grow-Ends n total g x at le bound left = elim (dec_lt 28 n) [
    | yes high ↦
        let none_left : min total 28 - g.current_blocks ≡ 0 = omega (arith, at) in
        let (g2, e2, x2) =
          grow_indirect1-Ends all size kind distinct narrow n total g x at (omega arith) le
            (omega arith) bound left in
        (
          g2,
          grow_step total g g (ap (λ k. fill_direct k g) none_left ∙ fill_none g)
              ∙ if_false _ _ (lt→not-leb total 28 (omega arith))
              ∙ e2,
          x2,
        )
    | no low ↦
        let k = min total 28 - g.current_blocks in
        let (g1, e1, x1, at1) =
          fill_direct-Fills all size kind distinct narrow k n g
            (subst (λ q. Indexed all size kind q g) (index_size_low n (omega arith)) x) at
            (omega (arith, at)) (ground arith) in
        elim (dec_lt 28 total) [
          | no short ↦ (
            g1,
            grow_step total g g1 e1 ∙ if_true _ _ (le→leb total 28 (omega arith)),
            subst (λ q. Indexed all size kind q g1)
                (omega (arith, at, index_size_low total (omega arith))) x1,
          )
          | yes long ↦
              let full : n + k ≡ 28 = omega (arith, at) in
              let (g2, e2, x2) =
                grow_indirect1-Ends all size kind distinct narrow 28 total g1
                  (subst (λ q. Indexed all size kind q g1) full x1) (at1 ∙ full) (omega arith)
                  (omega arith) long bound left in
              (g2, grow_step total g g1 e1 ∙ if_false _ _ (lt→not-leb total 28 long) ∙ e2, x2)
        ]
  ]

append-nil : (xs ys : List ℕ) (zs : List ℕ) → xs ++ ys ≡ zs → length xs ≡ length zs → xs ≡ zs
append-nil [] [] zs e h = e
append-nil [] (y ∷ ys) [] e h = refl
append-nil [] (y ∷ ys) (z ∷ zs) e h = absurd (omega (arith, h))
append-nil (x ∷ xs) ys [] e h = absurd (omega (arith, h))
append-nil (x ∷ xs) ys (z ∷ zs) e h =
    let (head, tail) = cons_parts e in ap₂ ◌∷◌ head (append-nil xs ys zs tail (omega (arith, h)))
  where
    cons_parts : {x z : ℕ} {xs zs : List ℕ} → (x ∷ xs) ≡ (z ∷ zs) → (x ≡ z) × (xs ≡ zs)
    cons_parts e = (ground arith, ground arith)

narrow-All :
    (xs : List ℕ) → All (λ b. b < 2 ^ 32) xs → (i : ℕ) → i < length xs → get_or xs i 0 < 2 ^ 32
narrow-All [] h i k = absurd (omega arith)
narrow-All (x ∷ xs) h zero k = h.0
narrow-All (x ∷ xs) h (suc i) k = narrow-All xs h.1 i (omega arith)

pub total_blocks_lem : (size : ℕ) → total_blocks size ≡ index_size (data_blocks_of size)
unfolding total_blocks
total_blocks_lem size = ground arith

-- The greatest size of a file: all the blocks that an index has room for.
abbrev pub max_size : ℕ
max_size = 16540 * 512

pub data_blocks_of_lem : (size : ℕ) → size ≤ max_size → data_blocks_of size ≡ (size + 511) / 512
unfolding data_blocks_of
data_blocks_of_lem size h = omega arith

slot-size :
    (inode : DiskInode) (d : Disk) (n i : ℕ) → slot (record inode { size = n }) d i ≡ slot inode d i
unfolding slot
slot-size inode d n i = refl

needed_lem :
    (inode : DiskInode) (new_size n : ℕ)
    → inode.size ≤ new_size
    → blocks_num_needed inode new_size ≡ some n
    → total_blocks new_size - total_blocks inode.size ≡ n
unfolding blocks_num_needed
needed_lem inode new_size n h e = elim (Bool-cases (leb inode.size new_size)) [
  | inl le ↦ ground arith
  | inr gt ↦ absurd (omega (arith, not-leb→lt inode.size new_size gt))
]

-- Given the number of blocks that `blocks_num_needed` asks for, `increase_size` succeeds and enters
-- all of them, in their order, behind the blocks that the index has: provided that no block occurs
-- twice among the old and the new ones and each is a `u32`, and that the new size is not less than
-- the old and not above the greatest.
pub increase_size-slots :
    (inode : DiskInode) (new_size : ℕ) (new_blocks : List ℕ) (d : Disk)
    → length inode.direct ≡ 28
    → inode.size ≤ new_size
    → new_size ≤ max_size
    → blocks_num_needed inode new_size ≡ some (length new_blocks)
    → let all = slots inode d 0 (total_blocks inode.size) ++ new_blocks in
      IsDistinct all
      → All (λ b. b < 2 ^ 32) all
      → (inode' : DiskInode) × (d' : Disk) × (increase_size inode new_size new_blocks d
          ≡ some (inode', d'))
        × (slots inode' d' 0 (total_blocks new_size) ≡ all)
        × (inode'.size ≡ new_size)
        × (inode'.type_ ≡ inode.type_)
        × (length inode'.direct ≡ 28)
unfolding increase_size data_blocks
increase_size-slots inode new_size new_blocks d len le bound needed distinct narrow =
    let all = slots inode d 0 (total_blocks inode.size) ++ new_blocks in
    let n = data_blocks_of inode.size in
    let total = data_blocks_of new_size in
    let more : index_size total ≡ length all = omega (
      arith,
      length-append (slots inode d 0 (total_blocks inode.size)) new_blocks,
      length-slots inode d 0 (total_blocks inode.size),
      needed_lem inode new_size (length new_blocks) le needed,
      total_blocks_lem inode.size,
      total_blocks_lem new_size,
      grows n total (
          omega (
            arith,
            data_blocks_of_lem inode.size (omega arith),
            data_blocks_of_lem new_size bound,
          )),
    ) in
    let g : Growth = record {
      current_blocks = n;
      inode = record inode { size = new_size };
      disk = d;
      new_blocks = new_blocks;
    } in
    let start : Indexed all new_size inode.type_ (index_size n) g = record {
      direct28 = len;
      content =
          ap (λ xs. xs ++ new_blocks)
            (slots_ext inode (record inode { size = new_size }) d d 0 (index_size n)
                (λ i lo hi. slot-size inode d new_size i)
              ∙ ap (slots inode d 0) (sym (total_blocks_lem inode.size)));
      same_size = refl;
      same_type = refl;
    } in
    let (g', e, x) =
      grow-Ends all new_size inode.type_ distinct (narrow-All all narrow) n total g start refl
        (omega
          (arith, data_blocks_of_lem inode.size (omega arith), data_blocks_of_lem new_size bound))
        (omega (arith, data_blocks_of_lem new_size bound)) (omega (arith, more)) in
    (
      g'.inode,
      g'.disk,
      rw e refl,
      append-nil (slots g'.inode g'.disk 0 (total_blocks new_size)) g'.new_blocks all
          (ap (λ k. slots g'.inode g'.disk 0 k ++ g'.new_blocks) (total_blocks_lem new_size)
            ∙ x.content)
          (length-slots g'.inode g'.disk 0 (total_blocks new_size)
            ∙ total_blocks_lem new_size
            ∙ more),
      x.same_size,
      x.same_type,
      x.direct28,
    )
  where
    grows : (a b : ℕ) → a ≤ b → index_size a ≤ index_size b
    grows a b h = ground arith
