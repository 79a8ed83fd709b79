-- ===== src/Kernel/PageTable/Mapping.antt =====
-- src/os/src/mm/page_table.rs: the mapping of pages to entries, and what a write to an entry does to it.
use project_r_core.Common.{
  ℕ, ◌^◌, ◌<◌, ◌≡◌, refl, ◌≢◌, ◌⊎◌, inl, inr, ◌∙◌, ap, sym, arith, true, Option, none, some, ◌==◌,
  if◌then◌else◌, ℕ_discrete, Bool-cases, eq→==, ne→not-==,
}
use project_r_core.Common.Bytes.{Bytes}
use project_r_core.Kernel.Address.{VirtPageNum, indexes}
use project_r_core.Kernel.Address.Fields.{indexes_lem}
use project_r_core.Kernel.Frames.{Machine}
use project_r_core.Kernel.PageTable.{
  PageTable, PageTableEntry, pte_ppn, is_valid, pte_addr, find_pte,
}
use project_r_core.Kernel.PageTable.Entry.{pte_ppn-lt}
use project_r_core.Kernel.PageTable.Tree.{Place, entry, IsTree, Writes}
use project_r_core.Kernel.PageTable.Walk.{
  lookup, look0, Path3, look0-Path3, write-look0_ne, write-Path3,
}
use project_r_core.Kernel.PageTable.Descend.{IsSound}

-- Pages with the same indexes are the same.
indexes_ne :
    (a b : ℕ)
    → a < 2 ^ 27
    → b < 2 ^ 27
    → a ≢ b
    → let i = indexes a in
      let i' = indexes b in (i.idx0 ≢ i'.idx0) ⊎ (i.idx1 ≢ i'.idx1) ⊎ (i.idx2 ≢ i'.idx2)
indexes_ne a b ha hb ne = elim (ℕ_discrete (indexes a).idx0 (indexes b).idx0) [
  | no ne0 ↦ inl ne0
  | yes e0 ↦ elim (ℕ_discrete (indexes a).idx1 (indexes b).idx1) [
    | no ne1 ↦ inr (inl ne1)
    | yes e1 ↦ inr (inr (λ e2. ne (omega (arith, indexes_lem a ha, indexes_lem b hb))))
  ]
]

-- The new mapping of pages: entry `e` for page `vpn`, and the old one for the others.
abbrev pub Maps :
    PageTable → PageTable → VirtPageNum → Option PageTableEntry → Bytes → Bytes → Type 0
Maps t t' vpn e mem mem' =
    (page : ℕ)
    → page < 2 ^ 27
    → lookup t' page mem' ≡ (if page == vpn then e else lookup t page mem)

-- A table whose tree is sound, wherever the frames of the tree stand.
abbrev pub IsSoundTable : ℕ → PageTable → Machine → Type 0
IsSoundTable start t m = (place : ℕ → Place) × IsSound start place t.root_ppn m

abbrev pub entry_seen : PageTableEntry → Option PageTableEntry
entry_seen v = if is_valid v then some v else none

-- What a write to the entry of page `vpn` does to the mapping.
pub write-Maps :
    (place : ℕ → Place) (t t' : PageTable) (mem mem' : Bytes) (vpn p v : ℕ)
    → t'.root_ppn ≡ t.root_ppn
    → vpn < 2 ^ 27
    → IsTree place t.root_ppn mem
    → (path : Path3 mem t.root_ppn (indexes vpn).idx0 (indexes vpn).idx1 p)
    → place p ≡ Place.bottom (indexes vpn).idx0 (indexes vpn).idx1
    → place path.middle ≡ Place.middle (indexes vpn).idx0
    → path.middle < 2 ^ 44
    → Writes mem mem' p (indexes vpn).idx2 v
    → Maps t t' vpn (entry_seen v) mem mem'
unfolding lookup
write-Maps place t t' mem mem' vpn p v root hv tree path at_p at_m hm w page hp =
    let i = indexes vpn in
    let (h0, h1, h2, digits) = indexes_lem vpn hv in
    let (k0, k1, k2, digits') = indexes_lem page hp in
    elim (ℕ_discrete page vpn) [
      | yes e ↦ rw (eq→== page vpn e) (
          rw (root, e)
            (look0-Path3 mem' t.root_ppn i.idx0 i.idx1 i.idx2 p (
                write-Path3 place t.root_ppn mem mem' tree i.idx0 i.idx1 i.idx2 p v path at_p w at_m
                  h0 h1 hm)
              ∙ ap entry_seen w.written))
      | no ne ↦ rw (ne→not-== page vpn ne) (
          rw root (
            write-look0_ne place t.root_ppn mem mem' tree i.idx0 i.idx1 i.idx2 p v path at_p w _ _ _
              k0 k1 k2 (indexes_ne vpn page hv hp (λ e. ne (sym e)))))
    ]

-- The tables above a mapped page.
pub record Mapped (mem : Bytes) (place : ℕ → Place) (root i j k : ℕ) (e : PageTableEntry)
    : Type 0 where
  pub table : ℕ
  pub path : Path3 mem root i j table
  pub narrow : table < 2 ^ 44
  pub middle_narrow : path.middle < 2 ^ 44
  pub at_bottom : place table ≡ Place.bottom i j
  pub at_middle : place path.middle ≡ Place.middle i
  pub is_entry : entry mem table k ≡ e
  pub entry_valid : is_valid (entry mem table k) ≡ true

look0-Mapped :
    (mem : Bytes) (place : ℕ → Place) (root i j k : ℕ) (e : PageTableEntry)
    → IsTree place root mem
    → i < 512
    → j < 512
    → look0 mem root i j k ≡ some e
    → Mapped mem place root i j k e
look0-Mapped mem place root i j k e tree hi hj found =
    elim (Bool-cases (is_valid (entry mem root i))) [
      | inr invalid ↦ absurd (ground arith)
      | inl valid ↦
          let q = pte_ppn (entry mem root i) in
          elim (Bool-cases (is_valid (entry mem q j))) [
            | inr invalid ↦ absurd (ground arith)
            | inl valid' ↦
                let p = pte_ppn (entry mem q j) in
                elim (Bool-cases (is_valid (entry mem p k))) [
                  | inr invalid ↦ absurd (ground arith)
                  | inl valid'' ↦ record {
                    table = p;
                    path = record {
                      middle = q;
                      first_valid = valid;
                      first_leads = refl;
                      second_valid = valid';
                      second_leads = refl;
                    };
                    narrow = pte_ppn-lt _;
                    middle_narrow = pte_ppn-lt _;
                    at_bottom = tree.second q i j (tree.first i hi valid) (pte_ppn-lt _) hj valid';
                    at_middle = tree.first i hi valid;
                    is_entry = ground arith;
                    entry_valid = valid'';
                  }
                ]
          ]
    ]

pub lookup-Mapped :
    (mem : Bytes) (place : ℕ → Place) (t : PageTable) (vpn : ℕ) (e : PageTableEntry)
    → IsTree place t.root_ppn mem
    → vpn < 2 ^ 27
    → lookup t vpn mem ≡ some e
    → Mapped mem place t.root_ppn (indexes vpn).idx0 (indexes vpn).idx1 (indexes vpn).idx2 e
unfolding lookup
lookup-Mapped mem place t vpn e tree hv found =
    let (h0, h1, h2, digits) = indexes_lem vpn hv in
    look0-Mapped mem place t.root_ppn _ _ _ e tree h0 h1 found

pub find_pte-Path3 :
    (mem : Bytes) (t : PageTable) (vpn p : ℕ)
    → Path3 mem t.root_ppn (indexes vpn).idx0 (indexes vpn).idx1 p
    → find_pte mem t vpn ≡ some (pte_addr p (indexes vpn).idx2)
unfolding find_pte
find_pte-Path3 mem t vpn p path =
    rw (path.first_valid, path.first_leads, path.second_valid, path.second_leads) refl
