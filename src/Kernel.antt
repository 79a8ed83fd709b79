-- ===== src/Kernel.antt =====
-- The kernel: src/os/src.
pub mod Pipe
pub mod Pids
pub mod Address
pub mod Frames
pub mod PageTable
pub mod Signals
pub mod UserBuffer
pub mod Files
pub mod MapArea
pub mod MemorySet
pub mod KernelStack
pub mod Tasks
