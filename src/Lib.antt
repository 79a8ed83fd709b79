-- ===== src/Lib.antt =====
-- A model of project-r-core, a RISC-V kernel with processes, signals, pipes and a file system
-- (src/os), and of its file system library (src/easy-fs).
--
-- How the parts interact. The frame allocator gives out frames of physical memory; page tables lie in
-- such frames and lead from the pages of a process to frames; a buffer of a user program is read
-- through them. A process has a pid and a kernel stack, a table of open files, and signals that are
-- delivered when it returns to user mode. A file is an inode of easy-fs, a pipe, or the console. The
-- file system keeps bitmaps, inodes and data blocks on a block device behind a cache of 16 blocks.
--
-- Common holds the shared names; its children have tests and comparisons, lists on native numbers,
-- bit fields, memory as bytes, and panics.
--
-- Kernel: src/os/src
--   Kernel.Address       mm/address.rs          `floor`, `ceil`, `indexes`, `SimpleRange`
--   Kernel.Frames        mm/frame_allocator.rs  `StackFrameAllocator`, `frame_alloc`
--   Kernel.PageTable     mm/page_table.rs       `PageTableEntry`, `PageTable`: the tables are bytes of
--                        physical memory, so that an entry is read and written where the code does
--   Kernel.MapArea       mm/memory_set.rs       `MapArea`: pages that are backed by frames of their own, or
--                        by the frames with the same numbers
--   Kernel.MemorySet     mm/memory_set.rs       `MemorySet`: `from_elf`, `from_existed_user`,
--                        `new_kernel`; the parser of ELF files and the linker's symbols are parameters
--   Kernel.KernelStack   task/pid.rs            `KernelStack::new` and its drop
--   Kernel.UserBuffer    mm/page_table.rs       `translated_byte_buffer`, `UserBuffer`, its iterator
--   Kernel.Pids          task/pid.rs            `PidAllocator`, `kernel_stack_position`
--   Kernel.Tasks         task/mod.rs, task/manager.rs, task/processor.rs, task/task.rs and
--                        syscall/process.rs: `sys_fork`, `sys_waitpid`, `exit_current_and_run_next`,
--                        `suspend_current_and_run_next`, `run_tasks`. An `Arc` is a number, and
--                        `strong_count` counts where the kernel keeps it
--   Kernel.Signals       task/signal.rs, task/action.rs, syscall/process.rs
--   Kernel.Pipe          fs/pipe.rs             `PipeRingBuffer`, `Pipe::read`, `Pipe::write`
--   Kernel.Files         fs/inode.rs, syscall/fs.rs, `alloc_fd` of task/task.rs
--
-- EasyFs: src/easy-fs/src
--   EasyFs.Disk          the contents of blocks and the integers in them
--   EasyFs.BlockCache    block_cache.rs         `get_block_cache`, `sync`, `block_cache_sync_all`
--   EasyFs.Bitmap        bitmap.rs              `alloc`, `dealloc`
--   EasyFs.Layout        layout.rs              `SuperBlock`, `DiskInode`, `get_block_id`
--   EasyFs.Resize        layout.rs              `increase_size`, `clear_size`
--   EasyFs.Transfer      layout.rs              `read_at`, `write_at`, `DirEntry`
--   EasyFs.Efs           efs.rs                 `create`, `open`, `alloc_data`
--   EasyFs.Vfs           vfs.rs                 `find`, `ls`, `create`, `clear`
--
-- State is a record or a function from addresses to bytes, passed explicitly. A panic is `none`, as is
-- the absence of a result; where the code has both, one is inside the other. A `usize` has 64 bits, and
-- a sum or a shift that may leave the width has its remainder written out.
--
-- A suspended `read` or `write` of a pipe goes on in what the other tasks have made of the pipe; a
-- schedule lists what they do at each suspension. Loops that are not structural are on fuel: the loops
-- of a pipe need two rounds for each suspension and two more, a transfer of an inode one round for each
-- block up to its end and one more, which is what it is called with, and the iterator over a user
-- buffer one round for each byte and one more, a loop over a range of pages one for each page and one
-- more, and `copy_data` one for each page of its data and one more. `translated_str` and `read_all` take their fuel as an
-- argument.
--
-- Not modelled: exec, the trap and switch code in assembly, the kernel heap, the console, the timer, the virtio
-- driver, the tool easy-fs-fuse, and the user programs. The blocks in the cache are accessed as the disk itself,
-- which the theorems on the cache allow; a client that holds a block is a count of its references.
pub mod Common
pub mod EasyFs
pub mod Kernel
