-- ===== src/Kernel/KernelStack/Tests.antt =====
-- The theorem on kernel stacks of src/os/src/task/pid.rs at a concrete space.
use project_r_core.Common.{ℕ, ◌+◌, ◌≤◌, ◌<◌, ◌≡◌, refl, arith, none, some, []}
use project_r_core.Kernel.Frames.{Machine}
use project_r_core.Kernel.PageTable.Walk.{lookup}
use project_r_core.Kernel.PageTable.Fresh.{root_only, fresh-lookup}
use project_r_core.Kernel.MapArea.Tests.{
  table, machine, entry_zero, machine-IsValid, machine-IsSound,
}
use project_r_core.Kernel.MemorySet.{MemorySet, find_area}
use project_r_core.Kernel.MemorySet.Remove.{Restores}
use project_r_core.Kernel.KernelStack.{new, drop}
use project_r_core.Kernel.KernelStack.Restore.{stack_page, new-drop-Restores}

abbrev space : MemorySet
space = record { page_table = table; areas = [] }

nothing_mapped :
    (page : ℕ)
    → stack_page 1 ≤ page
    → page < stack_page 1 + 2
    → lookup table page machine.mem ≡ none
nothing_mapped page lo hi =
    fresh-lookup 100 100 machine machine-IsValid (omega arith) (omega arith, omega arith, refl)
      (λ j hj. entry_zero j) table page refl (omega arith)

no_area : find_area (stack_page 1) [] ≡ none
unfolding find_area
no_area = refl

new-drop-Restores_example :
    (s1 : MemorySet) × (m1 : Machine) × (s2 : MemorySet) × (m2 : Machine) × (new 1 space machine
      ≡ some (s1, m1))
    × (drop 1 s1 m1 ≡ some (s2, m2))
    × Restores 100 (root_only 100) 2 space machine s2 m2
new-drop-Restores_example =
    new-drop-Restores 100 (root_only 100) 1 space machine machine-IsSound (omega arith)
      nothing_mapped no_area (omega arith)
