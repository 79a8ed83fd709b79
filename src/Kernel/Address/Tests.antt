-- ===== src/Kernel/Address/Tests.antt =====
-- Runs of src/os/src/mm/address.rs, and its theorems at concrete addresses.
use project_r_core.Common.{ℕ, ◌+◌, ◌*◌, ◌^◌, ◌≤◌, ◌<◌, ◌≡◌, refl, ◌⊎◌, none, some, arith}
use project_r_core.Kernel.Address.{
  floor, ceil, page_offset, page_num_of_addr, addr_of_page_num, usize_of_virt_addr, virt_addr_from,
  indexes,
}
use project_r_core.Kernel.Address.Fields.{
  floor-page_offset, page_num_of_addr_lem, ceil_lem, indexes_lem, IsCanonical, virt_addr_roundtrip,
}

-- The page that holds the trap context: the last but one of the address space.
trap_context_indexes :
    indexes (floor (virt_addr_from 0xffff_ffff_ffff_e000))
    ≡ record { idx0 = 511; idx1 = 511; idx2 = 510 }
unfolding indexes floor virt_addr_from
trap_context_indexes = refl

ceil_runs : (ceil 0x1001 ≡ 2) × (ceil 0x1000 ≡ 1) × (ceil 0 ≡ 0)
unfolding ceil
ceil_runs = (refl, refl, refl)

floor-page_offset_example :
    addr_of_page_num (floor 0x80201234) + page_offset 0x80201234 ≡ 0x80201234
floor-page_offset_example = floor-page_offset 0x80201234 (omega arith)

page_num_of_addr_lem_example :
    ((page_offset 0x3000 ≡ 0)
      × ((n : ℕ) × (page_num_of_addr 0x3000 ≡ some n) × (addr_of_page_num n ≡ 0x3000)))
    ⊎ ((0 < page_offset 0x3000) × (page_num_of_addr 0x3000 ≡ none))
page_num_of_addr_lem_example = page_num_of_addr_lem 0x3000 (omega arith)

ceil_lem_example : (0x1001 ≤ ceil 0x1001 * 4096) × ((n : ℕ) → 0x1001 ≤ n * 4096 → ceil 0x1001 ≤ n)
ceil_lem_example = ceil_lem 0x1001 (omega arith)

indexes_lem_example :
    let i = indexes 0x12345 in
    (i.idx0 < 512)
    × (i.idx1 < 512)
    × (i.idx2 < 512)
    × (i.idx0 * 2 ^ 18 + i.idx1 * 2 ^ 9 + i.idx2 ≡ 0x12345)
indexes_lem_example = indexes_lem 0x12345 (omega arith)

virt_addr_roundtrip_example :
    (0x7f_ffff_e000 < 2 ^ 39
      → IsCanonical (usize_of_virt_addr 0x7f_ffff_e000)
        × (virt_addr_from (usize_of_virt_addr 0x7f_ffff_e000) ≡ 0x7f_ffff_e000))
    × (IsCanonical 0x7f_ffff_e000
        → usize_of_virt_addr (virt_addr_from 0x7f_ffff_e000) ≡ 0x7f_ffff_e000)
virt_addr_roundtrip_example = virt_addr_roundtrip 0x7f_ffff_e000
