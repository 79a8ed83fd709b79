-- ===== src/Kernel/KernelStack.antt =====
-- src/os/src/task/pid.rs: `KernelStack`, an area of the kernel's space that is mapped while a task lives.
pub mod Restore
mod Tests
use project_r_core.Common.{ℕ, bit_or, Option, ◌>>=◌}
use project_r_core.Kernel.Address.{VirtPageNum, virt_addr_from, page_num_of_addr, floor}
use project_r_core.Kernel.Frames.{Machine}
use project_r_core.Kernel.Pids.{kernel_stack_position}
use project_r_core.Kernel.MapArea.{perm_r, perm_w}
use project_r_core.Kernel.MemorySet.{MemorySet, insert_framed_area, remove_area_with_start_vpn}

-- KernelStack::new, on KERNEL_SPACE.
pub new : ℕ → MemorySet → Machine → Option (MemorySet × Machine)
new pid s m =
    let (bottom, top) = kernel_stack_position pid in
    insert_framed_area s (virt_addr_from bottom) (virt_addr_from top) (bit_or perm_r perm_w) m

-- The drop of a KernelStack.
pub drop : ℕ → MemorySet → Machine → Option (MemorySet × Machine)
drop pid s m = page_num_of_addr (virt_addr_from (kernel_stack_position pid).0) >>= λ vpn.
    remove_area_with_start_vpn s vpn m
