-- ===== src/Kernel/PageTable/Tests.antt =====
-- The theorems of src/os/src/mm/page_table.rs at concrete tables.
use project_r_core.Common.{
  ℕ, ◌≤◌, ◌<◌, ◌≡◌, refl, ◌≢◌, ◌⊎◌, inl, none, some, [], ◌∷◌, arith, bit_or, false, ◌==◌,
  if◌then◌else◌, ℕ_discrete, ne→not-==,
}
use project_r_core.Common.Bytes.{Bytes, le_read, le_write, le_write_apart}
use project_r_core.Kernel.Address.{
  indexes, floor, page_offset, phys_page_num_from, addr_of_page_num,
}
use project_r_core.Kernel.Frames.{Machine}
use project_r_core.Kernel.Frames.Invariant.{IsUsed}
use project_r_core.Kernel.PageTable.{
  PageTable, pte_new, pte_ppn, pte_flags, is_valid, flag_v, map, unmap, translate, translate_va,
  read_pte, write_pte, pte_addr, has_flag,
}
use project_r_core.Kernel.PageTable.Entry.{pte_new_lem, pte_roundtrip}
use project_r_core.Kernel.PageTable.Tree.{
  entry, Place, IsTree, with_place, Links, link_first, link_second, write-IsTree, write_pte-Writes,
  pte_addr_lem,
}
use project_r_core.Kernel.PageTable.Walk.{lookup}
use project_r_core.Kernel.PageTable.Descend.{link-Links}
use project_r_core.Kernel.PageTable.Mapping.{Maps, IsSoundTable}
use project_r_core.Kernel.PageTable.Map.{map_lem}
use project_r_core.Kernel.PageTable.Unmap.{unmap_lem, unmap-translate}

-- A table in frame 100, all of whose entries are invalid, with frames 101 to 103 left.
abbrev pub table : PageTable
table = record { root_ppn = 100; frames = 100 ∷ [] }

abbrev cleared : Machine
cleared = record { allocator = record { current = 101; end = 104; recycled = [] }; mem = λ at. 0 }

abbrev pub only_root : ℕ → Place
only_root p = if 100 == p then Place.top else Place.outside

entry_zero : (p i : ℕ) → entry (λ at. 0) p i ≡ 0
unfolding read_pte le_read
entry_zero p i = refl

zero_invalid : is_valid 0 ≡ false
zero_invalid = (pte_roundtrip 0 0 (omega arith) (omega arith)).3

empty-IsTree : IsTree only_root 100 (λ at. 0)
empty-IsTree = record {
  narrow = omega arith;
  root_place = refl;
  first = λ i hi valid. absurd (let e = zero_invalid in let z = entry_zero 100 i in cc);
  second = λ p i j at hp hj valid. absurd (let e = zero_invalid in let z = entry_zero p j in cc);
}

only_root-owned : (p : ℕ) → only_root p ≢ Place.outside → IsUsed 100 cleared.allocator p
only_root-owned p ne = elim (ℕ_discrete 100 p) [
  | yes e ↦ (omega arith, omega arith, refl)
  | no off ↦ absurd (ne (ground arith))
]

cleared-IsSoundTable : IsSoundTable 100 table cleared
cleared-IsSoundTable = (
  only_root,
  record {
    tree = empty-IsTree;
    valid = record {
      from_start = omega arith;
      to_end = omega arith;
      narrow = omega arith;
      inside = tt;
      distinct = tt;
    };
    owned = only_root-owned;
  },
)

map_lem_example :
    ((lookup table 514 cleared.mem ≡ none)
      × ((t' : PageTable) × (m' : Machine) × (map table 514 0x80400 0x16 cleared ≡ some (t', m'))
          × IsSoundTable 100 t' m'
          × Maps table t' 514 (some (pte_new 0x80400 (bit_or 0x16 flag_v))) cleared.mem m'.mem))
    ⊎ ((lookup table 514 cleared.mem ≢ none) × (map table 514 0x80400 0x16 cleared ≡ none))
map_lem_example =
    map_lem 100 table 514 0x80400 0x16 cleared cleared-IsSoundTable (omega arith) (omega arith)
      (omega arith) (omega arith)

-- Page 514 is mapped to frame 7 through the tables in frames 100, 101 and 102.
abbrev pub mem1 : Bytes
mem1 = write_pte (λ at. 0) (pte_addr 100 0) (pte_new 101 flag_v)

abbrev pub mem2 : Bytes
mem2 = write_pte mem1 (pte_addr 101 1) (pte_new 102 flag_v)

abbrev mem3 : Bytes
mem3 = write_pte mem2 (pte_addr 102 2) (pte_new 7 0x17)

links1 : Links (λ at. 0) mem1 100 0 101
unfolding read_pte le_read
links1 =
    link-Links (λ at. 0) (λ at. 0) 100 0 101 (omega arith) (omega arith) (omega arith) (omega arith)
      (zero_invalid) (λ at e. refl) (λ at ne. refl)

abbrev pub places1 : ℕ → Place
places1 = with_place only_root 101 (Place.middle 0)

mem1-zero : (at : ℕ) → floor at ≡ 102 → mem1 at ≡ 0
unfolding write_pte floor
mem1-zero at e =
    le_write_apart 8 (λ b. 0) (pte_addr 100 0) (pte_new 101 flag_v) at
      (inl (omega (arith, e, pte_addr_lem 100 0 (omega arith))))

links2 : Links mem1 mem2 101 1 102
links2 =
    link-Links mem1 mem1 101 1 102 (omega arith) (omega arith) (omega arith) (omega arith)
      (links1.fresh 1 (omega arith)) mem1-zero (λ at ne. refl)

abbrev pub places2 : ℕ → Place
places2 = with_place places1 102 (Place.bottom 0 1)

pub mem2-IsTree : IsTree places2 100 mem2
mem2-IsTree =
    link_second places1 100 mem1 mem2 102
      (link_first only_root 100 (λ at. 0) mem1 101 empty-IsTree refl 0 (omega arith) links1) refl
      101 0 1 refl (omega arith) links2

mem3-IsTree : IsTree places2 100 mem3
mem3-IsTree = write-IsTree places2 100 mem2 mem3 102 0 1 2 (pte_new 7 0x17) mem2-IsTree refl (
    write_pte-Writes mem2 102 2 (pte_new 7 0x17) (omega arith) (omega arith)
      (omega (arith, pte_new_lem 7 0x17 (omega arith) (omega arith))))

abbrev mapped : Machine
mapped = record { allocator = record { current = 103; end = 104; recycled = [] }; mem = mem3 }

pub places2-range : (p : ℕ) → places2 p ≢ Place.outside → (100 ≤ p) × (p < 103)
places2-range p ne = elim (ℕ_discrete 100 p) [
  | yes e ↦ (omega arith, omega arith)
  | no off ↦ elim (ℕ_discrete 101 p) [
    | yes e ↦ (omega arith, omega arith)
    | no off' ↦ elim (ℕ_discrete 102 p) [
      | yes e ↦ (omega arith, omega arith)
      | no off'' ↦
          absurd (ne (rw (ne→not-== 102 p off'', ne→not-== 101 p off', ne→not-== 100 p off) refl))
    ]
  ]
]

mapped-IsSoundTable : IsSoundTable 100 table mapped
mapped-IsSoundTable = (
  places2,
  record {
    tree = mem3-IsTree;
    valid = record {
      from_start = omega arith;
      to_end = omega arith;
      narrow = omega arith;
      inside = tt;
      distinct = tt;
    };
    owned = λ p ne. (let (lo, hi) = places2-range p ne in (lo, hi, refl));
  },
)

lookup_mapped : lookup table 514 mem3 ≡ some (pte_new 7 0x17)
unfolding lookup indexes read_pte write_pte le_read le_write pte_addr addr_of_page_num pte_new
    pte_ppn phys_page_num_from is_valid has_flag pte_flags
lookup_mapped = refl

unmap_lem_example :
    ((lookup table 514 mem3 ≢ none)
      × (mem' : Bytes) × (unmap table 514 mem3 ≡ some mem')
      × IsSoundTable 100 table (record mapped { mem = mem' })
      × Maps table table 514 none mem3 mem')
    ⊎ ((lookup table 514 mem3 ≡ none) × (unmap table 514 mem3 ≡ none))
unmap_lem_example = unmap_lem 100 table 514 mapped mapped-IsSoundTable (omega arith)

is_mapped : lookup table (floor 0x202010) mem3 ≢ none
unfolding floor
is_mapped = rw lookup_mapped (λ e. cc)

unmap-translate_example :
    (mem' : Bytes) × (unmap table (floor 0x202010) mem3 ≡ some mem')
    × (lookup table (floor 0x202010) mem' ≡ none)
    × (translate table (floor 0x202010) mem' ≡ some 0)
    × (translate_va table 0x202010 mem' ≡ some (page_offset 0x202010))
unfolding floor
unmap-translate_example =
    unmap-translate 100 table 0x202010 mapped mapped-IsSoundTable (omega arith) is_mapped
