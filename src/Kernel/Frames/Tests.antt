-- ===== src/Kernel/Frames/Tests.antt =====
-- Runs of src/os/src/mm/frame_allocator.rs, and its theorems at concrete allocators.
use project_r_core.Common.{◌≡◌, refl, ◌⊎◌, none, some, [], ◌∷◌, arith}
use project_r_core.Kernel.Address.{phys_page_num_from}
use project_r_core.Kernel.Frames.{StackFrameAllocator, alloc, dealloc, Machine, frame_alloc}
use project_r_core.Kernel.Frames.Invariant.{
  IsValid, IsUsed, Adds, Allocates, Gives, alloc-Allocates, dealloc-IsUsed, dealloc_below,
  frame_alloc_lem,
}

-- The region [100, 104): 100 and 102 are used, 101 has come back.
abbrev region : StackFrameAllocator
region = record { current = 103; end = 104; recycled = 101 ∷ [] }

region-IsValid : IsValid 100 region
region-IsValid = record {
  from_start = omega arith;
  to_end = omega arith;
  narrow = omega arith;
  inside = ((omega arith, omega arith), tt);
  distinct = (refl, tt);
}

alloc_runs :
    ((alloc region).0 ≡ some 101)
    × ((alloc (alloc region).1).0 ≡ some 103)
    × ((alloc (alloc (alloc region).1).1).0 ≡ none)
    × (dealloc region 101 ≡ none)
unfolding alloc dealloc phys_page_num_from
alloc_runs = (refl, refl, refl, refl)

alloc-Allocates_example : Allocates 100 region (alloc region)
alloc-Allocates_example = alloc-Allocates 100 region region-IsValid

dealloc-IsUsed_example :
    (IsUsed 100 region 102
      × ((b : StackFrameAllocator) × (dealloc region 102 ≡ some b)
          × IsValid 100 b
          × Adds 100 b 102 region))
    ⊎ (¬ IsUsed 100 region 102 × (dealloc region 102 ≡ none))
dealloc-IsUsed_example = dealloc-IsUsed 100 region 102 region-IsValid (omega arith)

dealloc_below_example :
    (b : StackFrameAllocator) × (dealloc region 7 ≡ some b) × (alloc b ≡ (some 7, region))
dealloc_below_example = dealloc_below 100 region 7 region-IsValid (omega arith)

abbrev machine : Machine
machine = record { allocator = region; mem = λ at. 255 }

frame_alloc_lem_example : Gives 100 machine (frame_alloc machine)
frame_alloc_lem_example = frame_alloc_lem 100 machine region-IsValid
