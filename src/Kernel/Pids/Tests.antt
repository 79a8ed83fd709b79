-- ===== src/Kernel/Pids/Tests.antt =====
-- Runs of src/os/src/task/pid.rs, and its theorems at concrete allocators.
use project_r_core.Common.{◌+◌, ◌≤◌, ◌^◌, ◌≡◌, refl, none, [], ◌∷◌, arith}
use project_r_core.Kernel.Pids.{
  PidAllocator, alloc, dealloc, kernel_stack_position, get_top, page_size, kernel_stack_size,
  trampoline,
}
use project_r_core.Kernel.Pids.Invariant.{IsValid, Adds, alloc-IsValid, alloc-Adds}
use project_r_core.Kernel.Pids.Stacks.{stacks_apart}

-- Pids 0 and 2 are alive, 1 has come back.
abbrev three : PidAllocator
three = record { current = 3; recycled = 1 ∷ [] }

three-IsValid : IsValid three
three-IsValid = record { below = (omega arith, tt); distinct = (refl, tt) }

alloc_runs :
    ((alloc three).0 ≡ 1)
    × ((alloc (alloc three).1).0 ≡ 3)
    × (dealloc three 1 ≡ none)
    × (dealloc three 3 ≡ none)
unfolding alloc dealloc
alloc_runs = (refl, refl, refl, refl)

alloc-IsValid_example : IsValid (alloc three).1
alloc-IsValid_example = alloc-IsValid three three-IsValid

alloc-Adds_example : Adds three (alloc three).0 (alloc three).1
alloc-Adds_example = alloc-Adds three three-IsValid (omega arith)

stacks_apart_example :
    (get_top 7 + page_size ≤ (kernel_stack_position 4).0)
    × ((kernel_stack_position 4).0 + kernel_stack_size ≡ get_top 4)
    × (get_top 4 ≤ trampoline)
    × (2 ^ 64 ≤ (kernel_stack_position 7).0 + 2 ^ 38)
stacks_apart_example = stacks_apart 4 7 (omega arith) (omega arith)
