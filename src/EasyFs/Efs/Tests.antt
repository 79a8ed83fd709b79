-- ===== src/EasyFs/Efs/Tests.antt =====
-- The theorems on src/easy-fs/src/efs.rs at the size of the image that src/easy-fs-fuse/src/main.rs makes.
use project_r_core.Common.{ℕ, ◌+◌, ◌≤◌, ◌<◌, ◌≡◌, arith, some}
use project_r_core.EasyFs.Bitmap.{maximum}
use project_r_core.EasyFs.Efs.{plan, layout, get_disk_inode_pos, open_efs, format}
use project_r_core.EasyFs.Efs.Regions.{plan_regions, open-format}

plan_regions_example :
    let efs = layout 32768 1 in
    let p = plan 32768 1 in
    (efs.inode_bitmap.start_block_id ≡ 1)
    × (efs.inode_area_start_block ≡ 2)
    × (efs.data_bitmap.start_block_id ≡ 1026)
    × (efs.data_area_start_block ≡ efs.data_bitmap.start_block_id + efs.data_bitmap.blocks)
    × (efs.data_area_start_block + p.data_area_blocks ≡ 32768)
    × ((i : ℕ)
        → i < maximum efs.inode_bitmap
        → (2 ≤ (get_disk_inode_pos efs i).0)
          × ((get_disk_inode_pos efs i).0 < efs.data_bitmap.start_block_id)
          × ((get_disk_inode_pos efs i).1 + 128 ≤ 512))
    × (p.data_area_blocks ≤ maximum efs.data_bitmap)
plan_regions_example = plan_regions 32768 1 (omega arith) (omega arith) (omega arith)

open-format_example : open_efs (format 32768 1 (λ b a. 255)) ≡ some (layout 32768 1)
open-format_example = open-format 32768 1 (λ b a. 255) (omega arith) (omega arith) (omega arith)
