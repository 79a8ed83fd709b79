-- ===== src/Kernel/Pids/Stacks.antt =====
-- src/os/src/task/pid.rs: where the kernel stacks of the processes lie.
use project_r_core.Common.{ℕ, ◌+◌, ◌*◌, ◌^◌, ◌≤◌, ◌<◌, ◌≡◌, arith}
use project_r_core.Kernel.Pids.{
  kernel_stack_position, get_top, page_size, kernel_stack_size, trampoline,
}

-- The pids whose stacks lie in the upper half of the address space, where Sv39 addresses start with
-- ones: 2 ^ 38 bytes below the end, a stack and its guard page taking three pages each.
abbrev pub max_pid : ℕ
max_pid = 22369620

-- The positions without wrap-around.
pub position_lem :
    (pid : ℕ)
    → pid < max_pid
    → ((kernel_stack_position pid).1 + pid * 0x3000 + 0x1000 ≡ 2 ^ 64)
      × ((kernel_stack_position pid).0 + 0x2000 ≡ (kernel_stack_position pid).1)
unfolding kernel_stack_position
position_lem pid h = (omega arith, omega arith)

-- The stack of the lower pid lies above that of the other, with at least a guard page between them.
pub stacks_apart :
    (p q : ℕ)
    → p < q
    → q < max_pid
    → (get_top q + page_size ≤ (kernel_stack_position p).0)
      × ((kernel_stack_position p).0 + kernel_stack_size ≡ get_top p)
      × (get_top p ≤ trampoline)
      × (2 ^ 64 ≤ (kernel_stack_position q).0 + 2 ^ 38)
unfolding get_top
stacks_apart p q h k = (
  omega (arith, position_lem p (omega arith), position_lem q k),
  omega (arith, position_lem p (omega arith)),
  omega (arith, position_lem p (omega arith)),
  omega (arith, position_lem q k),
)
