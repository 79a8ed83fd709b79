-- ===== src/Kernel/MemorySet/Areas.antt =====
-- The loop of `from_existed_user` of src/os/src/mm/memory_set.rs over the areas of a space.
use project_r_core.Common.{
  ℕ, ◌+◌, ◌-◌, ◌*◌, ◌^◌, ◌≤◌, ◌<◌, ◌≡◌, ◌⊎◌, inl, inr, ◌∙◌, arith, none, some, List, [], ◌∷◌, All,
  All-map,
}
use project_r_core.Kernel.Frames.{Machine}
use project_r_core.Kernel.Frames.Invariant.{IsUsed}
use project_r_core.Kernel.PageTable.Tree.{Place}
use project_r_core.Kernel.PageTable.Walk.{lookup}
use project_r_core.Kernel.PageTable.Descend.{IsSound, IsData, Keeps}
use project_r_core.Kernel.MapArea.{MapArea, MapType}
use project_r_core.Kernel.MapArea.Frames.{frame_of}
use project_r_core.Kernel.MapArea.Pages.{entry_of}
use project_r_core.Kernel.MemorySet.{MemorySet}

-- An area of a process that is mapped in its space: each page to the frame that the area has for it.
pub record IsMapped (start : ℕ) (place : ℕ → Place) (user : MemorySet) (m : Machine)
    (area : MapArea) : Type 0 where
  pub framed : area.map_type ≡ MapType.framed
  pub ordered : area.vpn_range.l ≤ area.vpn_range.r
  pub bounded : area.vpn_range.r < 2 ^ 27
  pub narrow : area.map_perm < 2 ^ 8
  pub mapped :
      (page : ℕ)
      → area.vpn_range.l ≤ page
      → page < area.vpn_range.r
      → (ppn : ℕ) × (frame_of area page ≡ some ppn)
        × (lookup user.page_table page m.mem ≡ some (entry_of area ppn))
        × IsData start place m ppn

abbrev pub IsAway : ℕ → MapArea → Type 0
IsAway page area = (page < area.vpn_range.l) ⊎ (area.vpn_range.r ≤ page)

-- No page is in two areas.
abbrev pub IsDisjoint : List MapArea → Type 0
IsDisjoint [] = Unit
IsDisjoint (a ∷ areas) =
    All (λ b. (b.vpn_range.r ≤ a.vpn_range.l) ⊎ (a.vpn_range.r ≤ b.vpn_range.l)) areas
    × IsDisjoint areas

-- The number of pages.
abbrev pub size : List MapArea → ℕ
size [] = 0
size (a ∷ areas) = (a.vpn_range.r - a.vpn_range.l) + size areas

abbrev pub IsUnmapped : MemorySet → Machine → MapArea → Type 0
IsUnmapped s m area =
    (page : ℕ)
    → area.vpn_range.l ≤ page
    → page < area.vpn_range.r
    → lookup s.page_table page m.mem ≡ none

-- Each page of the area has in `s'` a frame that was not in use in `m`, with the flags of the area and the
-- bytes that the frame of the area had in `m`.
abbrev pub IsCopied : ℕ → (ℕ → Place) → Machine → MemorySet → Machine → MapArea → Type 0
IsCopied start place' m s' m' area =
    (page : ℕ)
    → area.vpn_range.l ≤ page
    → page < area.vpn_range.r
    → (p : ℕ) × (q : ℕ) × (frame_of area page ≡ some p)
      × (lookup s'.page_table page m'.mem ≡ some (entry_of area q))
      × ¬ IsUsed start m.allocator q
      × IsData start place' m' q
      × ((o : ℕ) → o < 4096 → m'.mem (q * 4096 + o) ≡ m.mem (p * 4096 + o))

-- What the copies of the areas have made of a space and the memory.
pub record CopiesAll (start : ℕ) (parent_place place : ℕ → Place) (user s : MemorySet)
    (areas : List MapArea) (m : Machine) (s' : MemorySet) (m' : Machine) : Type 0 where
  pub place' : ℕ → Place
  pub child : IsSound start place' s'.page_table.root_ppn m'
  pub parent : IsSound start parent_place user.page_table.root_ppn m'
  pub keeps : Keeps start place place' m m'
  pub others :
      (page : ℕ)
      → page < 2 ^ 27
      → All (IsAway page) areas
      → lookup s'.page_table page m'.mem ≡ lookup s.page_table page m.mem
  pub same_parent :
      (page : ℕ)
      → page < 2 ^ 27
      → lookup user.page_table page m'.mem ≡ lookup user.page_table page m.mem
  pub copied : All (IsCopied start place' m s' m') areas

pub IsMapped-later :
    (start : ℕ) (place place1 : ℕ → Place) (user : MemorySet) (m m1 : Machine) (area : MapArea)
    → Keeps start place place1 m m1
    → ((page : ℕ)
        → page < 2 ^ 27
        → lookup user.page_table page m1.mem ≡ lookup user.page_table page m.mem)
    → IsMapped start place user m area
    → IsMapped start place1 user m1 area
IsMapped-later start place place1 user m m1 area keeps same b = record {
  framed = b.framed;
  ordered = b.ordered;
  bounded = b.bounded;
  narrow = b.narrow;
  mapped = λ page lo hi.
      let (ppn, framed, found, d) = b.mapped page lo hi in
      (ppn, framed, same page (omega (arith, b.bounded)) ∙ found, keeps.data_kept ppn d);
}

pub all-IsAway :
    (a : MapArea) (areas : List MapArea) (page : ℕ)
    → a.vpn_range.l ≤ page
    → page < a.vpn_range.r
    → All (λ b. (b.vpn_range.r ≤ a.vpn_range.l) ⊎ (a.vpn_range.r ≤ b.vpn_range.l)) areas
    → All (IsAway page) areas
all-IsAway a areas page lo hi =
    All-map
      (λ b apart. elim apart [ inl below ↦ inr (omega arith) | inr above ↦ inl (omega arith) ])
      areas

pub IsUnmapped-later :
    (s s1 : MemorySet) (m m1 : Machine) (a b : MapArea)
    → a.vpn_range.r ≤ 2 ^ 27
    → b.vpn_range.r < 2 ^ 27
    → ((page : ℕ)
        → page < 2 ^ 27
        → IsAway page a
        → lookup s1.page_table page m1.mem ≡ lookup s.page_table page m.mem)
    → (b.vpn_range.r ≤ a.vpn_range.l) ⊎ (a.vpn_range.r ≤ b.vpn_range.l)
    → IsUnmapped s m b
    → IsUnmapped s1 m1 b
IsUnmapped-later s s1 m m1 a b ha hb others apart unmapped page lo hi =
    others page (omega arith)
      (elim apart [ inl below ↦ inl (omega arith) | inr above ↦ inr (omega arith) ])
    ∙ unmapped page lo hi
