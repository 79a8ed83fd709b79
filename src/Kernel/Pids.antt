-- ===== src/Kernel/Pids.antt =====
-- `PidAllocator` and the kernel stacks of src/os/src/task/pid.rs. A `usize` has 64 bits.
pub mod Invariant
pub mod Stacks
mod Tests
use project_r_core.Common.{
  ℕ, ◌+◌, ◌-◌, ◌*◌, ◌%◌, ◌^◌, Option, some, List, [], ◌∷◌, not, ltb, mem_b, assert, ◌>>=◌, ◌>>◌,
}

pub record PidAllocator : Type 0 where
  pub current : ℕ
  pub recycled : List ℕ

pub new : PidAllocator
new = record { current = 0; recycled = [] }

-- The head of `recycled` is the end of the vector, where `push` and `pop` work.
pub alloc : PidAllocator → ℕ × PidAllocator
alloc a = elim a.recycled [
  | [] ↦ (a.current, record a { current = (a.current + 1) % 2 ^ 64 })
  | pid ∷ rest ↦ (pid, record a { recycled = rest })
]

-- `none` is a failed assertion.
unfoldable pub dealloc : PidAllocator → ℕ → Option PidAllocator
dealloc a pid = do
  assert (ltb pid a.current)
  assert (not (mem_b pid a.recycled))
  some (record a { recycled = pid ∷ a.recycled })

abbrev pub page_size : ℕ
page_size = 0x1000

abbrev pub kernel_stack_size : ℕ
kernel_stack_size = 4096 * 2

-- usize::MAX - PAGE_SIZE + 1
abbrev pub trampoline : ℕ
trampoline = 2 ^ 64 - 1 - page_size + 1

-- Subtraction of `usize`, which wraps in the release build that the Makefile makes.
abbrev sub_usize : ℕ → ℕ → ℕ
sub_usize a b = (a + 2 ^ 64 - b % 2 ^ 64) % 2 ^ 64

-- (bottom, top)
pub kernel_stack_position : ℕ → ℕ × ℕ
kernel_stack_position pid =
    let top = sub_usize trampoline (pid * (kernel_stack_size + page_size)) in
    (sub_usize top kernel_stack_size, top)

-- KernelStack::get_top
pub get_top : ℕ → ℕ
get_top pid = (kernel_stack_position pid).1
