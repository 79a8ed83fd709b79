-- ===== src/Kernel/Frames.antt =====
-- src/os/src/mm/frame_allocator.rs: the allocator of physical page frames, and the trackers that clear a
-- frame when they are made and give it back when they are dropped. The physical memory that
-- `get_bytes_array` reaches is part of the state.
pub mod Invariant
mod Tests
use project_r_core.Common.{
  ℕ, ◌+◌, ◌-◌, ◌*◌, ◌/◌, ◌%◌, ◌^◌, Bool, true, false, Option, none, some, List, [], ◌∷◌, ◌||◌, leb,
  ◌==◌, mem_b, if◌then◌else◌, ◌>>=◌,
}
use project_r_core.Common.Bytes.{Bytes}
use project_r_core.Kernel.Address.{
  PhysPageNum, phys_page_num_from, phys_addr_from, addr_of_page_num, floor, ceil, page_size,
}

pub record StackFrameAllocator : Type 0 where
  pub current : ℕ
  pub end : ℕ
  pub recycled : List ℕ

pub new : StackFrameAllocator
new = record { current = 0; end = 0; recycled = [] }

pub init : StackFrameAllocator → PhysPageNum → PhysPageNum → StackFrameAllocator
init a l r = record a { current = l; end = r }

-- The head of `recycled` is the end of the vector.
pub alloc : StackFrameAllocator → Option PhysPageNum × StackFrameAllocator
alloc a = elim a.recycled [
  | [] ↦ if a.current == a.end then (none, a) else (
    some (phys_page_num_from (a.current + 1 - 1)),
    record a { current = (a.current + 1) % 2 ^ 64 },
  )
  | ppn ∷ rest ↦ (some (phys_page_num_from ppn), record a { recycled = rest })
]

-- `none` is the panic of the validity check.
pub dealloc : StackFrameAllocator → PhysPageNum → Option StackFrameAllocator
dealloc a ppn =
    if leb a.current ppn || mem_b ppn a.recycled
    then none
    else some (record a { recycled = ppn ∷ a.recycled })

abbrev pub memory_end : ℕ
memory_end = 0x80800000

-- `ekernel` is the address of that linker symbol.
pub init_frame_allocator : ℕ → StackFrameAllocator
init_frame_allocator ekernel =
    init new (ceil (phys_addr_from ekernel)) (floor (phys_addr_from memory_end))

-- FrameTracker::new: the bytes of the frame are set to 0.
unfoldable pub clear_frame : PhysPageNum → Bytes → Bytes
clear_frame ppn mem a = if floor a == ppn then 0 else mem a

-- The allocator and the memory that it hands out.
pub record Machine : Type 0 where
  pub allocator : StackFrameAllocator
  pub mem : Bytes

-- .map(FrameTracker::new)
track : Machine → Option PhysPageNum × StackFrameAllocator → Option PhysPageNum × Machine
track m (none, a) = (none, record m { allocator = a })
track m (some ppn, a) = (some ppn, record { allocator = a; mem = clear_frame ppn m.mem })

pub frame_alloc : Machine → Option PhysPageNum × Machine
unfolding track
frame_alloc m = track m (alloc m.allocator)

-- Also the drop of a `FrameTracker`.
unfoldable pub frame_dealloc : Machine → PhysPageNum → Option Machine
frame_dealloc m ppn = do a ← dealloc m.allocator ppn; some (record m { allocator = a })
