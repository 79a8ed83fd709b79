-- ===== src/Kernel/MapArea/Tests.antt =====
-- The theorems on areas of src/os/src/mm/memory_set.rs at a concrete area.
use project_r_core.Common.{ℕ, ◌≡◌, refl, arith, [], ◌∷◌}
use project_r_core.Common.Bytes.{le_read}
use project_r_core.Kernel.Frames.{Machine}
use project_r_core.Kernel.Frames.Invariant.{IsValid}
use project_r_core.Kernel.PageTable.{PageTable, read_pte}
use project_r_core.Kernel.PageTable.Tree.{entry}
use project_r_core.Kernel.PageTable.Descend.{IsSound}
use project_r_core.Kernel.PageTable.Fresh.{root_only, fresh-IsSound}
use project_r_core.Kernel.MapArea.{MapArea, MapType, map}
use project_r_core.Kernel.MapArea.Pages.{MapsOrFails}
use project_r_core.Kernel.MapArea.Map.{map-MapsOrFails}

abbrev pub table : PageTable
table = record { root_ppn = 100; frames = 100 ∷ [] }

abbrev pub machine : Machine
machine = record { allocator = record { current = 101; end = 110; recycled = [] }; mem = λ at. 0 }

pub entry_zero : (j : ℕ) → entry (λ at. 0) 100 j ≡ 0
unfolding read_pte le_read
entry_zero j = refl

pub machine-IsValid : IsValid 100 machine.allocator
machine-IsValid = record {
  from_start = omega arith;
  to_end = omega arith;
  narrow = omega arith;
  inside = tt;
  distinct = tt;
}

pub machine-IsSound : IsSound 100 (root_only 100) 100 machine
machine-IsSound =
    fresh-IsSound 100 100 machine machine-IsValid (omega arith) (omega arith, omega arith, refl)
      (λ j hj. entry_zero j)

abbrev stack : MapArea
stack = record {
  vpn_range = record { l = 514; r = 516 };
  data_frames = [];
  map_type = MapType.framed;
  map_perm = 0x16;
}

map-MapsOrFails_example :
    MapsOrFails 100 (root_only 100) 514 2 stack table machine (map stack table machine)
map-MapsOrFails_example =
    map-MapsOrFails 100 (root_only 100) stack table machine machine-IsSound refl (omega arith)
      (omega arith) (omega arith) (omega arith)
