-- ===== src/Kernel/PageTable/Unmap.antt =====
-- src/os/src/mm/page_table.rs: `unmap` and `translate` against the mapping of pages to entries.
use project_r_core.Common.{
  ℕ, ◌+◌, ◌^◌, ◌<◌, ◌≡◌, refl, ◌≢◌, ◌⊎◌, inl, inr, ◌∙◌, ap, sym, arith, false, Option, none, some,
  if◌then◌else◌, Bool-cases, Option-cases, assert, ◌>>=◌, ◌>>◌,
}
use project_r_core.Common.Bytes.{Bytes}
use project_r_core.Kernel.Address.{indexes, floor, page_offset, phys_addr_from, addr_of_page_num}
use project_r_core.Kernel.Address.Fields.{indexes_lem, phys_addr_from_mod, page_offset_mod}
use project_r_core.Kernel.Frames.{Machine}
use project_r_core.Kernel.PageTable.{
  PageTable, pte_ppn, is_valid, pte_addr, read_pte, write_pte, find_pte, unmap, translate,
  translate_va, pte_empty,
}
use project_r_core.Kernel.PageTable.Entry.{pte_ppn_lem, pte_roundtrip}
use project_r_core.Kernel.PageTable.Tree.{Place, Writes, write_pte-Writes, write-IsTree}
use project_r_core.Kernel.PageTable.Descend.{IsSound, Keeps}
use project_r_core.Kernel.PageTable.Map.{write-Keeps}
use project_r_core.Kernel.PageTable.Walk.{lookup, lookup-find_pte, write-Path3}
use project_r_core.Kernel.PageTable.Mapping.{
  Maps, IsSoundTable, write-Maps, lookup-Mapped, find_pte-Path3,
}

empty_invalid : is_valid 0 ≡ false
empty_invalid = (pte_roundtrip 0 0 (omega arith) (omega arith)).3

frame0_addr :
    (va : ℕ) → phys_addr_from (addr_of_page_num (pte_ppn 0) + page_offset va) ≡ page_offset va
unfolding addr_of_page_num
frame0_addr va = omega (
  arith,
  phys_addr_from_mod (addr_of_page_num (pte_ppn 0) + page_offset va),
  pte_ppn_lem 0,
  page_offset_mod va,
)

unmap-none :
    (found : Option ℕ) (mem : Bytes)
    → (found >>= λ at. if is_valid (read_pte mem at) then some (read_pte mem at) else none) ≡ none
    → (found >>= λ at. assert (is_valid (read_pte mem at)) >> some (write_pte mem at pte_empty))
      ≡ none
unmap-none none mem h = refl
unmap-none (some at) mem h = elim (Bool-cases (is_valid (read_pte mem at))) [
  | inl valid ↦ absurd (ground arith)
  | inr invalid ↦ rw invalid refl
]

-- What `unmap` of page `vpn` has made of the memory.
pub record UnmapsPage (start : ℕ) (place : ℕ → Place) (t : PageTable) (vpn : ℕ) (m : Machine)
    (mem' : Bytes) : Type 0 where
  pub sound : IsSound start place t.root_ppn (record m { mem = mem' })
  pub maps : Maps t t vpn none m.mem mem'
  pub keeps : Keeps start place place m (record m { mem = mem' })

-- `unmap` of a page that is mapped, wherever the frames of the tree stand; of one that is not, it fails.
pub unmap-UnmapsPage :
    (start : ℕ) (place : ℕ → Place) (t : PageTable) (vpn : ℕ) (m : Machine)
    → IsSound start place t.root_ppn m
    → vpn < 2 ^ 27
    → ((lookup t vpn m.mem ≢ none)
        × ((mem' : Bytes) × (unmap t vpn m.mem ≡ some mem') × UnmapsPage start place t vpn m mem'))
      ⊎ ((lookup t vpn m.mem ≡ none) × (unmap t vpn m.mem ≡ none))
unfolding unmap
unmap-UnmapsPage start place t vpn m s hv = elim (Option-cases (lookup t vpn m.mem)) [
  | inl unmapped ↦ inr (
    unmapped,
    unmap-none (find_pte m.mem t vpn) m.mem (sym (lookup-find_pte t vpn m.mem) ∙ unmapped),
  )
  | inr (e, found) ↦
      let i = indexes vpn in
      let (h0, h1, h2, digits) = indexes_lem vpn hv in
      let d = lookup-Mapped m.mem place t vpn e s.tree hv found in
      let at = find_pte-Path3 m.mem t vpn d.table d.path in
      let mem' = write_pte m.mem (pte_addr d.table i.idx2) 0 in
      let w : Writes m.mem mem' d.table i.idx2 0 =
        write_pte-Writes m.mem d.table i.idx2 0 d.narrow h2 (omega arith) in
      inl (
        rw found (λ e'. cc),
        (
          mem',
          rw (at, d.entry_valid) refl,
          record {
            sound = record {
              tree =
                  write-IsTree place t.root_ppn m.mem mem' d.table i.idx0 i.idx1 i.idx2 0 s.tree
                    d.at_bottom w;
              valid = s.valid;
              owned = s.owned;
            };
            maps = λ page hpage.
                write-Maps place t t m.mem mem' vpn d.table 0 refl hv s.tree d.path d.at_bottom
                  d.at_middle d.middle_narrow w page hpage
                ∙ rw (empty_invalid) refl;
            keeps =
                write-Keeps start place d.table i.idx2 0 m d.narrow h2
                  (λ out. let bottom = d.at_bottom in cc);
          },
        ),
      )
]

-- Unmapping a page that is mapped succeeds: the page is then not mapped, every other page has the
-- entry it had, and the tree of tables is sound again. Unmapping a page that is not mapped is a
-- panic.
pub unmap_lem :
    (start : ℕ) (t : PageTable) (vpn : ℕ) (m : Machine)
    → IsSoundTable start t m
    → vpn < 2 ^ 27
    → ((lookup t vpn m.mem ≢ none)
        × (mem' : Bytes) × (unmap t vpn m.mem ≡ some mem')
        × IsSoundTable start t (record m { mem = mem' })
        × Maps t t vpn none m.mem mem')
      ⊎ ((lookup t vpn m.mem ≡ none) × (unmap t vpn m.mem ≡ none))
unmap_lem start t vpn m (place, s) hv = elim (unmap-UnmapsPage start place t vpn m s hv) [
  | inl (mapped, (mem', e, u)) ↦ inl (mapped, mem', e, (place, u.sound), u.maps)
  | inr failed ↦ inr failed
]

-- `translate` and `translate_va` do not test the flag V: after `unmap` of a page that was mapped, the
-- page is not mapped, but `translate` still returns an entry, the empty one, and `translate_va` an
-- address of frame 0.
pub unmap-translate :
    (start : ℕ) (t : PageTable) (va : ℕ) (m : Machine)
    → IsSoundTable start t m
    → floor va < 2 ^ 27
    → lookup t (floor va) m.mem ≢ none
    → (mem' : Bytes) × (unmap t (floor va) m.mem ≡ some mem')
      × (lookup t (floor va) mem' ≡ none)
      × (translate t (floor va) mem' ≡ some 0)
      × (translate_va t va mem' ≡ some (page_offset va))
unfolding unmap translate translate_va
unmap-translate start t va m (place, s) hv mapped =
    elim (Option-cases (lookup t (floor va) m.mem)) [
      | inl unmapped ↦ absurd (mapped unmapped)
      | inr (e, found) ↦
          let i = indexes (floor va) in
          let (h0, h1, h2, digits) = indexes_lem (floor va) hv in
          let d = lookup-Mapped m.mem place t (floor va) e s.tree hv found in
          let at = find_pte-Path3 m.mem t (floor va) d.table d.path in
          let mem' = write_pte m.mem (pte_addr d.table i.idx2) 0 in
          let w : Writes m.mem mem' d.table i.idx2 0 =
            write_pte-Writes m.mem d.table i.idx2 0 d.narrow h2 (omega arith) in
          let path' =
            write-Path3 place t.root_ppn m.mem mem' s.tree i.idx0 i.idx1 i.idx2 d.table 0 d.path
              d.at_bottom w d.at_middle h0 h1 d.middle_narrow in
          let at' = find_pte-Path3 mem' t (floor va) d.table path' in
          let written = w.written in
          (
            mem',
            rw (at, d.entry_valid) refl,
            lookup-find_pte t (floor va) mem' ∙ rw (at', written, empty_invalid) refl,
            rw (at', written) refl,
            rw (at', written) (ap some (frame0_addr va)),
          )
    ]
