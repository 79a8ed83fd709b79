-- ===== src/Kernel/MemorySet/Copyable.antt =====
-- What one round of `from_existed_user` of src/os/src/mm/memory_set.rs needs, and what it makes.
use project_r_core.Common.{
  ℕ, ◌+◌, ◌-◌, ◌*◌, ◌^◌, ◌≤◌, ◌<◌, ◌≡◌, ◌≢◌, ◌⊎◌, arith, bit_or, Option, none, some,
}
use project_r_core.Kernel.Frames.{Machine}
use project_r_core.Kernel.Frames.Invariant.{IsUsed, IsValid, free}
use project_r_core.Kernel.PageTable.{pte_ppn, flag_v}
use project_r_core.Kernel.PageTable.Entry.{pte_roundtrip, with_flag_v}
use project_r_core.Kernel.PageTable.Tree.{Place}
use project_r_core.Kernel.PageTable.Walk.{lookup}
use project_r_core.Kernel.PageTable.Descend.{IsSound, IsData, Keeps}
use project_r_core.Kernel.MapArea.{MapArea, MapType}
use project_r_core.Kernel.MapArea.Frames.{frame_of}
use project_r_core.Kernel.MapArea.Pages.{entry_of}
use project_r_core.Kernel.MemorySet.{MemorySet}

-- An area of `user`, whose tables stand at `parent_place`, and a space `s` to which it can be copied.
pub record Copyable (start : ℕ) (parent_place place : ℕ → Place) (user s : MemorySet)
    (area : MapArea) (m : Machine) : Type 0 where
  pub parent : IsSound start parent_place user.page_table.root_ppn m
  pub child : IsSound start place s.page_table.root_ppn m
  pub tables_apart : (r : ℕ) → parent_place r ≢ Place.outside → IsData start place m r
  pub framed : area.map_type ≡ MapType.framed
  pub ordered : area.vpn_range.l ≤ area.vpn_range.r
  pub bounded : area.vpn_range.r ≤ 2 ^ 27
  pub narrow : area.map_perm < 2 ^ 8
  pub mapped :
      (page : ℕ)
      → area.vpn_range.l ≤ page
      → page < area.vpn_range.r
      → (ppn : ℕ) × (frame_of area page ≡ some ppn)
        × (lookup user.page_table page m.mem ≡ some (entry_of area ppn))
        × IsData start place m ppn
  pub unmapped :
      (page : ℕ)
      → area.vpn_range.l ≤ page
      → page < area.vpn_range.r
      → lookup s.page_table page m.mem ≡ none
  pub enough : 3 * (area.vpn_range.r - area.vpn_range.l) ≤ free m.allocator

-- The copy of an area: each of its pages has a new frame with the same flags and the same bytes.
pub record Copies (start : ℕ) (parent_place place : ℕ → Place) (user s : MemorySet) (area : MapArea)
    (m : Machine) (s' : MemorySet) (m' : Machine) : Type 0 where
  pub place' : ℕ → Place
  pub child : IsSound start place' s'.page_table.root_ppn m'
  pub parent : IsSound start parent_place user.page_table.root_ppn m'
  pub keeps : Keeps start place place' m m'
  pub cost : free m.allocator ≤ free m'.allocator + 3 * (area.vpn_range.r - area.vpn_range.l)
  pub others :
      (page : ℕ)
      → page < 2 ^ 27
      → (page < area.vpn_range.l) ⊎ (area.vpn_range.r ≤ page)
      → lookup s'.page_table page m'.mem ≡ lookup s.page_table page m.mem
  pub same_parent :
      (page : ℕ)
      → page < 2 ^ 27
      → lookup user.page_table page m'.mem ≡ lookup user.page_table page m.mem
  pub copied :
      (page : ℕ)
      → area.vpn_range.l ≤ page
      → page < area.vpn_range.r
      → (p : ℕ) × (q : ℕ) × (frame_of area page ≡ some p)
        × (lookup s'.page_table page m'.mem ≡ some (entry_of area q))
        × ¬ IsUsed start m.allocator q
        × IsData start place' m' q
        × ((o : ℕ) → o < 4096 → m'.mem (q * 4096 + o) ≡ m.mem (p * 4096 + o))

abbrev pub or_zero : Option ℕ → ℕ
or_zero none = 0
or_zero (some n) = n

pub entry_ppn :
    (area : MapArea) (ppn : ℕ)
    → area.map_perm < 2 ^ 8
    → ppn < 2 ^ 44
    → pte_ppn (entry_of area ppn) ≡ ppn
entry_ppn area ppn hf hp =
    (pte_roundtrip ppn (bit_or area.map_perm flag_v) hp
      (omega (arith, with_flag_v area.map_perm))).0

pub used_narrow :
    (start : ℕ) (m : Machine) (r : ℕ)
    → IsValid start m.allocator
    → IsUsed start m.allocator r
    → r < 2 ^ 44
used_narrow start m r v u = omega (arith, v.narrow, v.to_end)
