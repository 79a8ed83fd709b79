-- ===== src/Kernel/PageTable/Map.antt =====
-- src/os/src/mm/page_table.rs: `map` against the mapping of pages to entries.
use project_r_core.Common.{
  ℕ, ◌+◌, ◌^◌, ◌≤◌, ◌<◌, ◌≡◌, refl, ◌≢◌, ◌⊎◌, inl, inr, ◌∙◌, ap, sym, arith, none, some, List,
  Bool-cases, bit_or,
}
use project_r_core.Kernel.Address.{VirtPageNum, indexes}
use project_r_core.Kernel.Address.Fields.{indexes_lem}
use project_r_core.Kernel.Frames.{Machine}
use project_r_core.Kernel.Frames.Invariant.{free}
use project_r_core.Kernel.PageTable.{
  PageTable, PageTableEntry, pte_new, is_valid, pte_addr, write_pte, flag_v, find_pte_create, map,
}
use project_r_core.Kernel.PageTable.Entry.{pte_roundtrip, pte_new_lem, with_flag_v}
use project_r_core.Kernel.PageTable.Tree.{
  Place, entry, Writes, write_pte-Writes, write_pte_outside, write-IsTree,
}
use project_r_core.Kernel.PageTable.Walk.{lookup, look2, look0-Path3}
use project_r_core.Kernel.PageTable.Descend.{IsSound, Keeps, Keeps-trans}
use project_r_core.Kernel.PageTable.Create.{Reaches, walk_create_lem}
use project_r_core.Kernel.PageTable.Mapping.{Maps, IsSoundTable, write-Maps, entry_seen}

-- `find_pte_create`, as `map` uses it.
find_pte_create_lem :
    (start : ℕ) (place : ℕ → Place) (t : PageTable) (vpn : VirtPageNum) (m : Machine)
    → IsSound start place t.root_ppn m
    → vpn < 2 ^ 27
    → 2 ≤ free m.allocator
    → (p : ℕ) × (frames' : List ℕ) × (m' : Machine) × (find_pte_create t vpn m
        ≡ some (pte_addr p (indexes vpn).idx2, record t { frames = frames' }, m'))
      × Reaches start t.root_ppn (indexes vpn).idx0 (indexes vpn).idx1 place m m' p
unfolding find_pte_create
find_pte_create_lem start place t vpn m s hv left =
    let i = indexes vpn in
    let (h0, h1, h2, digits) = indexes_lem vpn hv in
    let (p, frames', m', e, r) =
      walk_create_lem start t.root_ppn place m t.frames i.idx0 i.idx1 i.idx2 s h0 h1 left in
    (p, frames', m', rw e refl, r)

-- What `map` of page `vpn` to an entry `e` has made of `t` and `m`.
pub record MapsPage (start : ℕ) (place : ℕ → Place) (t : PageTable) (vpn : ℕ) (e : PageTableEntry)
    (m : Machine) (t' : PageTable) (m' : Machine) : Type 0 where
  pub place' : ℕ → Place
  pub sound : IsSound start place' t'.root_ppn m'
  pub maps : Maps t t' vpn (some e) m.mem m'.mem
  pub keeps : Keeps start place place' m m'
  pub cost : free m.allocator ≤ free m'.allocator + 2

pub write-Keeps :
    (start : ℕ) (place : ℕ → Place) (p i v : ℕ) (m : Machine)
    → p < 2 ^ 44
    → i < 512
    → place p ≢ Place.outside
    → Keeps start place place m (record m { mem = write_pte m.mem (pte_addr p i) v })
write-Keeps start place p i v m hp hi inside = record {
  used_kept = λ r u. u;
  data_kept = λ r d. d;
  bytes_kept =
      λ at d. write_pte_outside m.mem p i v at hp hi (λ e. inside (ap place (sym e) ∙ d.1));
}

-- `map` of a page that is not mapped, wherever the frames of the tree stand; of one that is, it fails.
pub map-MapsPage :
    (start : ℕ) (place : ℕ → Place) (t : PageTable) (vpn ppn flags : ℕ) (m : Machine)
    → IsSound start place t.root_ppn m
    → vpn < 2 ^ 27
    → ppn < 2 ^ 44
    → flags < 2 ^ 8
    → 2 ≤ free m.allocator
    → ((lookup t vpn m.mem ≡ none)
        × ((t' : PageTable) × (m' : Machine) × (map t vpn ppn flags m ≡ some (t', m'))
            × MapsPage start place t vpn (pte_new ppn (bit_or flags flag_v)) m t' m'))
      ⊎ ((lookup t vpn m.mem ≢ none) × (map t vpn ppn flags m ≡ none))
unfolding map lookup
map-MapsPage start place t vpn ppn flags m s hv hp hf left =
    let i = indexes vpn in
    let (h0, h1, h2, digits) = indexes_lem vpn hv in
    let (p, frames', m', e, r) = find_pte_create_lem start place t vpn m s hv left in
    let before : lookup t vpn m.mem ≡ look2 m'.mem p i.idx2 =
      sym (r.same i.idx0 i.idx1 i.idx2 h0 h1 h2)
      ∙ look0-Path3 m'.mem t.root_ppn i.idx0 i.idx1 i.idx2 p r.path in
    elim (Bool-cases (is_valid (entry m'.mem p i.idx2))) [
      | inl valid ↦ inr (rw (before, valid) (λ e'. cc), rw (e, valid) refl)
      | inr invalid ↦
          let v = pte_new ppn (bit_or flags flag_v) in
          let narrow : bit_or flags flag_v < 2 ^ 8 = omega (arith, with_flag_v flags) in
          let mem' = write_pte m'.mem (pte_addr p i.idx2) v in
          let w : Writes m'.mem mem' p i.idx2 v =
            write_pte-Writes m'.mem p i.idx2 v r.narrow h2
              (omega (arith, pte_new_lem ppn (bit_or flags flag_v) hp narrow)) in
          let (a, b, valid, c) = pte_roundtrip ppn flags hp hf in
          let t' = record t { frames = frames' } in
          let after : Maps t t' vpn (entry_seen v) m'.mem mem' =
            write-Maps r.place' t t' m'.mem mem' vpn p v refl hv r.sound.tree r.path r.at_bottom
              r.at_middle r.middle_narrow w in
          inl (
            rw (before, invalid) refl,
            (
              t',
              record m' { mem = mem' },
              rw (e, invalid) refl,
              record {
                place' = r.place';
                sound = record {
                  tree =
                      write-IsTree r.place' t.root_ppn m'.mem mem' p i.idx0 i.idx1 i.idx2 v
                        r.sound.tree r.at_bottom w;
                  valid = r.sound.valid;
                  owned = r.sound.owned;
                };
                maps = λ page hpage.
                    let (k0, k1, k2, digits') = indexes_lem page hpage in
                    after page hpage ∙ rw (valid, r.same _ _ _ k0 k1 k2) refl;
                keeps = Keeps-trans r.keeps (
                    write-Keeps start r.place' p i.idx2 v m' r.narrow h2
                      (λ out. let at = r.at_bottom in cc));
                cost = r.cost;
              },
            ),
          )
    ]

-- With two frames left, mapping a page that is not mapped succeeds: the page then has the entry with
-- the given frame, the given flags and V, and every other page the one it had; the tree of tables is
-- sound again. Mapping a page that is mapped is a panic.
pub map_lem :
    (start : ℕ) (t : PageTable) (vpn ppn flags : ℕ) (m : Machine)
    → IsSoundTable start t m
    → vpn < 2 ^ 27
    → ppn < 2 ^ 44
    → flags < 2 ^ 8
    → 2 ≤ free m.allocator
    → ((lookup t vpn m.mem ≡ none)
        × ((t' : PageTable) × (m' : Machine) × (map t vpn ppn flags m ≡ some (t', m'))
            × IsSoundTable start t' m'
            × Maps t t' vpn (some (pte_new ppn (bit_or flags flag_v))) m.mem m'.mem))
      ⊎ ((lookup t vpn m.mem ≢ none) × (map t vpn ppn flags m ≡ none))
map_lem start t vpn ppn flags m (place, s) hv hp hf left =
    elim (map-MapsPage start place t vpn ppn flags m s hv hp hf left) [
      | inl (unmapped, (t', m', e, mapped)) ↦
          inl (unmapped, (t', m', e, (mapped.place', mapped.sound), mapped.maps))
      | inr failed ↦ inr failed
    ]
