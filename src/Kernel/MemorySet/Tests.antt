-- ===== src/Kernel/MemorySet/Tests.antt =====
-- The theorems on spaces of src/os/src/mm/memory_set.rs at a concrete process with one page.
use project_r_core.Common.{◌≡◌, refl, arith, some, [], ◌∷◌}
use project_r_core.Common.Bytes.{Bytes, le_read, le_write}
use project_r_core.Kernel.Address.{indexes, addr_of_page_num, phys_page_num_from}
use project_r_core.Kernel.Frames.{Machine}
use project_r_core.Kernel.PageTable.{
  pte_new, pte_ppn, pte_addr, read_pte, write_pte, is_valid, has_flag, pte_flags,
}
use project_r_core.Kernel.PageTable.Entry.{pte_new_lem}
use project_r_core.Kernel.PageTable.Tree.{write-IsTree, write_pte-Writes}
use project_r_core.Kernel.PageTable.Walk.{lookup}
use project_r_core.Kernel.PageTable.Descend.{IsSound}
use project_r_core.Kernel.PageTable.Tests.{table, mem2, places2, mem2-IsTree, places2-range}
use project_r_core.Kernel.MapArea.{MapArea, MapType}
use project_r_core.Kernel.MapArea.Frames.{frame_of}
use project_r_core.Kernel.MapArea.Pages.{entry_of}
use project_r_core.Kernel.MemorySet.{MemorySet, from_existed_user}
use project_r_core.Kernel.MemorySet.Areas.{IsMapped}
use project_r_core.Kernel.MemorySet.Fork.{IsUserSpace, Forked, from_existed_user-Forked}

-- Page 514 is mapped to frame 103, through the tables in frames 100, 101 and 102.
abbrev mem : Bytes
mem = write_pte mem2 (pte_addr 102 2) (pte_new 103 0x17)

abbrev machine : Machine
machine = record { allocator = record { current = 104; end = 120; recycled = [] }; mem = mem }

abbrev stack : MapArea
stack = record {
  vpn_range = record { l = 514; r = 515 };
  data_frames = (514, 103) ∷ [];
  map_type = MapType.framed;
  map_perm = 0x16;
}

abbrev user : MemorySet
user = record { page_table = table; areas = stack ∷ [] }

machine-IsSound : IsSound 100 places2 100 machine
machine-IsSound = record {
  tree = write-IsTree places2 100 mem2 mem 102 0 1 2 (pte_new 103 0x17) mem2-IsTree refl (
      write_pte-Writes mem2 102 2 (pte_new 103 0x17) (omega arith) (omega arith)
        (omega (arith, pte_new_lem 103 0x17 (omega arith) (omega arith))));
  valid = record {
    from_start = omega arith;
    to_end = omega arith;
    narrow = omega arith;
    inside = tt;
    distinct = tt;
  };
  owned = λ p ne. (let (lo, hi) = places2-range p ne in (lo, omega arith, refl));
}

stack_mapped : lookup table 514 mem ≡ some (entry_of stack 103)
unfolding lookup indexes read_pte write_pte le_read le_write pte_addr addr_of_page_num pte_new
    pte_ppn phys_page_num_from is_valid has_flag pte_flags
stack_mapped = refl

stack-IsMapped : IsMapped 100 places2 user machine stack
unfolding frame_of
stack-IsMapped = record {
  framed = refl;
  ordered = omega arith;
  bounded = omega arith;
  narrow = omega arith;
  mapped = λ page lo hi.
      let only : page ≡ 514 = omega arith in
      rw only (103, refl, stack_mapped, ((omega arith, omega arith, refl), refl));
}

user-IsUserSpace : IsUserSpace 100 places2 user machine
user-IsUserSpace = record {
  sound = machine-IsSound;
  mapped = (stack-IsMapped, tt);
  disjoint = (tt, tt);
}

from_existed_user-Forked_example :
    (s : MemorySet) × (m' : Machine) × (from_existed_user 0x80201000 user machine ≡ some (s, m'))
    × Forked 100 places2 0x80201000 user machine s m'
from_existed_user-Forked_example =
    from_existed_user-Forked 100 places2 0x80201000 user machine user-IsUserSpace (omega arith)
      (omega arith) (omega arith)
