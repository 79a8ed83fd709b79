-- ===== src/Kernel/KernelStack/Restore.antt =====
-- A kernel stack of src/os/src/task/pid.rs that is made and dropped.
use project_r_core.Common.{
  ℕ, ◌+◌, ◌-◌, ◌*◌, ◌≤◌, ◌<◌, ◌≡◌, refl, ◌∙◌, ap, subst, arith, bit_or, none, some, ◌>>=◌,
}
use project_r_core.Kernel.Address.{
  virt_addr_from, page_num_of_addr, aligned, page_offset, floor, ceil,
}
use project_r_core.Kernel.Address.Fields.{virt_addr_from_mod, page_offset_mod}
use project_r_core.Kernel.Frames.{Machine}
use project_r_core.Kernel.Frames.Invariant.{free}
use project_r_core.Kernel.Pids.{kernel_stack_position}
use project_r_core.Kernel.Pids.Stacks.{max_pid, position_lem}
use project_r_core.Kernel.PageTable.Tree.{Place}
use project_r_core.Kernel.PageTable.Walk.{lookup}
use project_r_core.Kernel.PageTable.Descend.{IsSound}
use project_r_core.Kernel.MapArea.{perm_r, perm_w}
use project_r_core.Kernel.MemorySet.{MemorySet, find_area, remove_area_with_start_vpn}
use project_r_core.Kernel.MemorySet.Remove.{Restores, insert-Restores}
use project_r_core.Kernel.KernelStack.{new, drop}

-- The lower one of the two pages of a stack.
abbrev pub stack_page : ℕ → ℕ
stack_page pid = 0x7fffffd - 3 * pid

low_addr :
    (pid : ℕ)
    → pid < max_pid
    → virt_addr_from (kernel_stack_position pid).0 ≡ (0x7fffffd - 3 * pid) * 4096
low_addr pid h = omega (arith, position_lem pid h, virt_addr_from_mod (kernel_stack_position pid).0)

high_addr :
    (pid : ℕ)
    → pid < max_pid
    → virt_addr_from (kernel_stack_position pid).1 ≡ (0x7ffffff - 3 * pid) * 4096
high_addr pid h =
    omega (arith, position_lem pid h, virt_addr_from_mod (kernel_stack_position pid).1)

low_page :
    (pid : ℕ)
    → pid < max_pid
    → floor (virt_addr_from (kernel_stack_position pid).0) ≡ stack_page pid
unfolding floor
low_page pid h = omega (arith, low_addr pid h)

high_page :
    (pid : ℕ)
    → pid < max_pid
    → ceil (virt_addr_from (kernel_stack_position pid).1) ≡ stack_page pid + 2
unfolding ceil
high_page pid h = omega (arith, high_addr pid h)

low_num :
    (pid : ℕ)
    → pid < max_pid
    → page_num_of_addr (virt_addr_from (kernel_stack_position pid).0)
      ≡ some (floor (virt_addr_from (kernel_stack_position pid).0))
unfolding page_num_of_addr aligned
low_num pid h =
    let at = virt_addr_from (kernel_stack_position pid).0 in
    let e : page_offset at ≡ 0 = omega (arith, page_offset_mod at, low_addr pid h) in rw e refl

-- Making the kernel stack of a pid and dropping it again leaves the pages and areas of the kernel's space
-- and the bytes of the frames in use that are no tables of it as they were, keeps the tree of tables sound,
-- and takes no more than four frames, for tables: provided that the two pages are not mapped, no area
-- starts there, and six frames are left.
pub new-drop-Restores :
    (start : ℕ) (place : ℕ → Place) (pid : ℕ) (s : MemorySet) (m : Machine)
    → IsSound start place s.page_table.root_ppn m
    → pid < max_pid
    → ((page : ℕ)
        → stack_page pid ≤ page
        → page < stack_page pid + 2
        → lookup s.page_table page m.mem ≡ none)
    → find_area (stack_page pid) s.areas ≡ none
    → 6 ≤ free m.allocator
    → (s1 : MemorySet) × (m1 : Machine) × (s2 : MemorySet) × (m2 : Machine) × (new pid s m
        ≡ some (s1, m1))
      × (drop pid s1 m1 ≡ some (s2, m2))
      × Restores start place 2 s m s2 m2
unfolding new drop
new-drop-Restores start place pid s m sound h unmapped no_area left =
    let low = low_page pid h in
    let high = high_page pid h in
    let (s1, m1, s2, m2, made, dropped, r) =
      insert-Restores start place s (virt_addr_from (kernel_stack_position pid).0)
        (virt_addr_from (kernel_stack_position pid).1) (bit_or perm_r perm_w) m sound
        (omega (arith, low, high)) (omega (arith, low, high)) (omega arith)
        (λ page lo hi. unmapped page (omega (arith, low)) (omega (arith, high))) (rw low no_area)
        (omega (arith, low, high)) in
    let two : ceil (virt_addr_from (kernel_stack_position pid).1)
          - floor (virt_addr_from (kernel_stack_position pid).0)
        ≡ 2 =
      omega (arith, low, high) in
    (
      s1,
      m1,
      s2,
      m2,
      made,
      ap (λ o. o >>= λ vpn. remove_area_with_start_vpn s1 vpn m1) (low_num pid h) ∙ dropped,
      subst (λ n. Restores start place n s m s2 m2) two r,
    )
