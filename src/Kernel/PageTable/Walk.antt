-- ===== src/Kernel/PageTable/Walk.antt =====
-- What the tables of src/os/src/mm/page_table.rs map: the valid entries of the lowest level.
use project_r_core.Common.{
  ℕ, ◌^◌, ◌<◌, ◌≡◌, ◌≢◌, ◌⊎◌, inl, inr, sym, arith, true, Option, none, some, if◌then◌else◌,
  ℕ_discrete, Bool-cases, ◌>>=◌,
}
use project_r_core.Common.Bytes.{Bytes}
use project_r_core.Kernel.Address.{VirtPageNum, indexes}
use project_r_core.Kernel.PageTable.{
  PageTable, PageTableEntry, pte_ppn, is_valid, read_pte, find_pte,
}
use project_r_core.Kernel.PageTable.Entry.{pte_ppn-lt}
use project_r_core.Kernel.PageTable.Tree.{Place, entry, IsTree, Links, Writes, apart_of_place}

-- The mapping, by the three indexes, from a table of each level.
abbrev pub look2 : Bytes → ℕ → ℕ → Option PageTableEntry
look2 mem p k = if is_valid (entry mem p k) then some (entry mem p k) else none

abbrev pub look1 : Bytes → ℕ → ℕ → ℕ → Option PageTableEntry
look1 mem p j k = if is_valid (entry mem p j) then look2 mem (pte_ppn (entry mem p j)) k else none

abbrev pub look0 : Bytes → ℕ → ℕ → ℕ → ℕ → Option PageTableEntry
look0 mem p i j k =
    if is_valid (entry mem p i) then look1 mem (pte_ppn (entry mem p i)) j k else none

-- The entry that the processor finds for a virtual page, if the page is mapped.
unfoldable pub lookup : PageTable → VirtPageNum → Bytes → Option PageTableEntry
lookup t vpn mem = let i = indexes vpn in look0 mem t.root_ppn i.idx0 i.idx1 i.idx2

-- `lookup` is `find_pte` with the test for the flag V that it leaves to its callers.
pub lookup-find_pte :
    (t : PageTable) (vpn : VirtPageNum) (mem : Bytes)
    → lookup t vpn mem ≡ (
        find_pte mem t vpn >>= λ at.
        if is_valid (read_pte mem at) then some (read_pte mem at) else none)
unfolding lookup find_pte
lookup-find_pte t vpn mem = ground arith

module _ (mem mem' : Bytes) where
  pub look2_ext : (p k : ℕ) → entry mem' p k ≡ entry mem p k → look2 mem' p k ≡ look2 mem p k
  look2_ext p k e = rw e

  pub look1_ext :
      (p j k : ℕ)
      → entry mem' p j ≡ entry mem p j
      → (is_valid (entry mem p j) ≡ true
          → look2 mem' (pte_ppn (entry mem p j)) k ≡ look2 mem (pte_ppn (entry mem p j)) k)
      → look1 mem' p j k ≡ look1 mem p j k
  look1_ext p j k e below = elim (Bool-cases (is_valid (entry mem p j))) [
    | inl valid ↦ rw (e, valid) (below valid)
    | inr invalid ↦ rw (e, invalid)
  ]

  pub look0_ext :
      (p i j k : ℕ)
      → entry mem' p i ≡ entry mem p i
      → (is_valid (entry mem p i) ≡ true
          → look1 mem' (pte_ppn (entry mem p i)) j k ≡ look1 mem (pte_ppn (entry mem p i)) j k)
      → look0 mem' p i j k ≡ look0 mem p i j k
  look0_ext p i j k e below = elim (Bool-cases (is_valid (entry mem p i))) [
    | inl valid ↦ rw (e, valid) (below valid)
    | inr invalid ↦ rw (e, invalid)
  ]

module _ (place : ℕ → Place) (root : ℕ) (mem mem' : Bytes) (q : ℕ) (tree : IsTree place root mem)
    (out : place q ≡ Place.outside) where
  not_new : (p : ℕ) (x : Place) → place p ≡ x → x ≢ Place.outside → q ≢ p
  not_new p x at ne = apart_of_place place Place.outside x out at (λ e. ne (sym e))

  -- A table hung on the root maps nothing yet.
  pub link_first-look0 :
      (a i j k : ℕ)
      → a < 512
      → i < 512
      → j < 512
      → k < 512
      → Links mem mem' root a q
      → look0 mem' root i j k ≡ look0 mem root i j k
  link_first-look0 a i j k ha hi hj hk l = elim (ℕ_discrete a i) [
    | yes e ↦ rw (← e) (rw (l.was_invalid, l.now_valid, l.leads, l.fresh j hj))
    | no ne ↦
        look0_ext mem mem' root i j k
          (l.others root i tree.narrow hi (not_new root Place.top tree.root_place (λ e. cc))
            (inr ne))
          λ valid.
            let at = tree.first i hi valid in
            look1_ext mem mem' _ j k (same_entry _ j at (pte_ppn-lt _) hj) λ valid'.
              look2_ext mem mem' _ k
                (same_below _ j k (tree.second _ i j at (pte_ppn-lt _) hj valid') (pte_ppn-lt _) hk)
  ]
    where
      same_entry :
          (p j : ℕ)
          → place p ≡ Place.middle i
          → p < 2 ^ 44
          → j < 512
          → entry mem' p j ≡ entry mem p j
      same_entry p j at hp hj =
          l.others p j hp hj (not_new p (Place.middle i) at (λ e. cc))
            (inl (apart_of_place place Place.top (Place.middle i) tree.root_place at (λ e. cc)))

      same_below :
          (p j k : ℕ)
          → place p ≡ Place.bottom i j
          → p < 2 ^ 44
          → k < 512
          → entry mem' p k ≡ entry mem p k
      same_below p j k at hp hk =
          l.others p k hp hk (not_new p (Place.bottom i j) at (λ e. cc))
            (inl (apart_of_place place Place.top (Place.bottom i j) tree.root_place at (λ e. cc)))

  -- Nor does one hung on a table of the middle level.
  pub link_second-look0 :
      (p b a i j k : ℕ)
      → place p ≡ Place.middle b
      → a < 512
      → i < 512
      → j < 512
      → k < 512
      → Links mem mem' p a q
      → look0 mem' root i j k ≡ look0 mem root i j k
  link_second-look0 p b a i j k at_p ha hi hj hk l =
      look0_ext mem mem' root i j k
        (l.others root i tree.narrow hi (not_new root Place.top tree.root_place (λ e. cc))
          (inl (apart_of_place place (Place.middle b) Place.top at_p tree.root_place (λ e. cc))))
        λ valid. middle_level (pte_ppn (entry mem root i)) (tree.first i hi valid) (pte_ppn-lt _)
    where
      same_below :
          (r : ℕ) → place r ≡ Place.bottom i j → r < 2 ^ 44 → entry mem' r k ≡ entry mem r k
      same_below r at hr =
          l.others r k hr hk (not_new r (Place.bottom i j) at (λ e. cc))
            (inl (apart_of_place place (Place.middle b) (Place.bottom i j) at_p at (λ e. cc)))

      unchanged :
          (r : ℕ)
          → place r ≡ Place.middle i
          → r < 2 ^ 44
          → (p ≢ r) ⊎ (a ≢ j)
          → look1 mem' r j k ≡ look1 mem r j k
      unchanged r at hr ne =
          look1_ext mem mem' r j k (l.others r j hr hj (not_new r (Place.middle i) at (λ e. cc)) ne)
            λ valid'.
              look2_ext mem mem' _ k
                (same_below _ (tree.second r i j at hr hj valid') (pte_ppn-lt _))

      middle_level :
          (r : ℕ) → place r ≡ Place.middle i → r < 2 ^ 44 → look1 mem' r j k ≡ look1 mem r j k
      middle_level r at hr = elim (ℕ_discrete p r) [
        | yes e ↦ elim (ℕ_discrete a j) [
          | yes e' ↦ rw (← e, ← e') (rw (l.was_invalid, l.now_valid, l.leads, l.fresh k hk))
          | no ne ↦ unchanged r at hr (inr ne)
        ]
        | no ne ↦ unchanged r at hr (inl ne)
      ]

-- The entry of a table of the lowest level that three indexes lead to.
pub record Path3 (mem : Bytes) (root i j p : ℕ) : Type 0 where
  pub middle : ℕ
  pub first_valid : is_valid (entry mem root i) ≡ true
  pub first_leads : pte_ppn (entry mem root i) ≡ middle
  pub second_valid : is_valid (entry mem middle j) ≡ true
  pub second_leads : pte_ppn (entry mem middle j) ≡ p

pub look0-Path3 :
    (mem : Bytes) (root i j k p : ℕ) → Path3 mem root i j p → look0 mem root i j k ≡ look2 mem p k
look0-Path3 mem root i j k p path =
    rw (path.first_valid, path.first_leads, path.second_valid, path.second_leads)

module _ (place : ℕ → Place) (root : ℕ) (mem mem' : Bytes) (tree : IsTree place root mem)
    (i j k p v : ℕ) (path : Path3 mem root i j p) (at_p : place p ≡ Place.bottom i j)
    (w : Writes mem mem' p k v) where
  off_top : p ≢ root
  off_top = apart_of_place place (Place.bottom i j) Place.top at_p tree.root_place (λ e. cc)

  off_middle : (r a : ℕ) → place r ≡ Place.middle a → p ≢ r
  off_middle r a at = apart_of_place place (Place.bottom i j) (Place.middle a) at_p at (λ e. cc)

  -- Writing an entry leaves every other page as it was.
  pub write-look0_ne :
      (a b c : ℕ)
      → a < 512
      → b < 512
      → c < 512
      → (i ≢ a) ⊎ (j ≢ b) ⊎ (k ≢ c)
      → look0 mem' root a b c ≡ look0 mem root a b c
  write-look0_ne a b c ha hb hc ne =
      look0_ext mem mem' root a b c (w.others root a tree.narrow ha (inl off_top)) λ valid.
        let at = tree.first a ha valid in
        look1_ext mem mem' _ b c (w.others _ b (pte_ppn-lt _) hb (inl (off_middle _ a at)))
          λ valid'. look2_ext mem mem' _ c (
            w.others _ c (pte_ppn-lt _) hc
              (bottom_apart _ (tree.second _ a b at (pte_ppn-lt _) hb valid')))
    where
      bottom_apart : (r : ℕ) → place r ≡ Place.bottom a b → (p ≢ r) ⊎ (k ≢ c)
      bottom_apart r at = elim (ℕ_discrete k c) [
        | yes e ↦ inl (
            apart_of_place place (Place.bottom i j) (Place.bottom a b) at_p at (λ e'. ground arith))
        | no other ↦ inr other
      ]

  -- The tables above it still lead to the entry.
  pub write-Path3 :
      place path.middle ≡ Place.middle i
      → i < 512
      → j < 512
      → path.middle < 2 ^ 44
      → Path3 mem' root i j p
  write-Path3 at hi hj hm =
      let first = w.others root i tree.narrow hi (inl off_top) in
      let second = w.others path.middle j hm hj (inl (off_middle path.middle i at)) in
      record {
        middle = path.middle;
        first_valid = rw first path.first_valid;
        first_leads = rw first path.first_leads;
        second_valid = rw second path.second_valid;
        second_leads = rw second path.second_leads;
      }
