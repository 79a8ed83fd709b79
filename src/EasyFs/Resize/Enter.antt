-- ===== src/EasyFs/Resize/Enter.antt =====
-- src/easy-fs/src/layout.rs: how the index of an inode grows by the blocks of the iterator.
use project_r_core.Common.{
  ℕ, suc, ◌+◌, ◌^◌, ◌<◌, ◌≡◌, refl, ◌≢◌, ◌∙◌, ap, ap₂, sym, subst, arith, Option, some, List, [],
  ◌∷◌, ◌++◌, length, length-append, get_or, IsDistinct,
}
use project_r_core.EasyFs.Layout.{DiskInodeType}
use project_r_core.EasyFs.Resize.{Growth}
use project_r_core.EasyFs.Resize.Index.{
  slot, slots, length-slots, slots_add, get_or-slots_first, get_or-append_middle, slots_ext,
  get_or-IsDistinct,
}

-- The first `p` blocks of the index, and then the blocks of the iterator, are `all`.
pub record Indexed (all : List ℕ) (size : ℕ) (kind : DiskInodeType) (p : ℕ) (g : Growth)
    : Type 0 where
  pub direct28 : length g.inode.direct ≡ 28
  pub content : slots g.inode g.disk 0 p ++ g.new_blocks ≡ all
  pub same_size : g.inode.size ≡ size
  pub same_type : g.inode.type_ ≡ kind

module _ (all : List ℕ) (size : ℕ) (kind : DiskInodeType) (distinct : IsDistinct all)
    (narrow : (i : ℕ) → i < length all → get_or all i 0 < 2 ^ 32) where
  abbrev pub Fills : ℕ → ℕ → Option Growth → Type 0
  Fills p current r =
      (g : Growth) × (r ≡ some g) × Indexed all size kind p g × (g.current_blocks ≡ current)

  slot-all :
      {p : ℕ} {g : Growth}
      → Indexed all size kind p g
      → (i : ℕ) → i < p
      → slot g.inode g.disk i ≡ get_or all i 0
  slot-all {p} {g} x i h =
      sym (get_or-slots_first g.inode g.disk p g.new_blocks i h)
      ∙ ap (λ xs. get_or xs i 0) x.content

  length-all :
      {p : ℕ} {g : Growth} → Indexed all size kind p g → p + length g.new_blocks ≡ length all
  length-all {p} {g} x = omega (
    arith,
    length-append (slots g.inode g.disk 0 p) g.new_blocks,
    length-slots g.inode g.disk 0 p,
    ap length x.content,
  )

  -- Two places of the index hold different blocks.
  pub slots_apart :
      {p : ℕ} {g : Growth}
      → Indexed all size kind p g
      → (i j : ℕ) → i < j
      → j < p
      → slot g.inode g.disk i ≢ slot g.inode g.disk j
  slots_apart x i j h k = λ e.
      get_or-IsDistinct all i j distinct h (omega (arith, length-all x))
        (sym (slot-all x i (omega arith)) ∙ e ∙ slot-all x j k)

  -- The iterator has a block while places are left.
  pub record Next (p : ℕ) (g : Growth) : Type 0 where
    pub block : ℕ
    pub rest : List ℕ
    pub blocks : g.new_blocks ≡ block ∷ rest
    pub fits : block < 2 ^ 32

  pub Next-Next : {p : ℕ} {g : Growth} → Indexed all size kind p g → p < length all → Next p g
  Next-Next {p} {g} x h = split g.new_blocks refl
    where
      at_p : (b : ℕ) (rest : List ℕ) → g.new_blocks ≡ b ∷ rest → get_or all p 0 ≡ b
      at_p b rest e =
          ap (λ xs. get_or xs p 0) (sym x.content ∙ ap (◌++◌ (slots g.inode g.disk 0 p)) e)
          ∙ ap (λ i. get_or (slots g.inode g.disk 0 p ++ (b ∷ rest)) i 0)
              (sym (length-slots g.inode g.disk 0 p))
          ∙ get_or-append_middle (slots g.inode g.disk 0 p) b rest

      split : (xs : List ℕ) → g.new_blocks ≡ xs → Next p g
      split [] e = absurd (omega (arith, length-all x, ap length e))
      split (b ∷ rest) e = record {
        block = b;
        rest = rest;
        blocks = e;
        fits = subst (λ t. t < 2 ^ 32) (at_p b rest e) (narrow p h);
      }

  -- One block is entered at place `p`.
  pub enter :
      {p : ℕ} {g : Growth} (g' : Growth) (n : Next p g)
      → Indexed all size kind p g
      → length g'.inode.direct ≡ 28
      → g'.inode.size ≡ g.inode.size
      → g'.inode.type_ ≡ g.inode.type_
      → g'.new_blocks ≡ n.rest
      → ((i : ℕ) → i < p → slot g'.inode g'.disk i ≡ slot g.inode g.disk i)
      → slot g'.inode g'.disk p ≡ n.block
      → Indexed all size kind (suc p) g'
  enter {p} {g} g' n x len size_eq kind_eq rest same here = record {
    direct28 = len;
    content =
        slots_add g'.inode g'.disk p g'.new_blocks
        ∙ ap₂ ◌++◌ (slots_ext g.inode g'.inode g.disk g'.disk 0 p (λ i lo hi. same i (omega arith)))
            (ap₂ ◌∷◌ here rest ∙ sym n.blocks)
        ∙ x.content;
    same_size = size_eq ∙ x.same_size;
    same_type = kind_eq ∙ x.same_type;
  }

  pub at_place : {p q c : ℕ} {r : Option Growth} → p ≡ q → Fills p c r → Fills q c r
  at_place {c = c} {r = r} e = subst (λ t. Fills t c r) e
