-- ===== src/EasyFs/Efs/Regions.antt =====
-- src/easy-fs/src/efs.rs: the regions that `create` plans, and that `open` finds again.
use project_r_core.Common.{ℕ, ◌+◌, ◌*◌, ◌^◌, ◌≤◌, ◌<◌, ◌≡◌, refl, inr, ◌∙◌, ap, arith, some}
use project_r_core.EasyFs.Disk.{Disk, word, set_word, word-set_word_self, word32_ne}
use project_r_core.EasyFs.Bitmap.{maximum}
use project_r_core.EasyFs.Layout.{SuperBlock, is_valid_super, initialize_super}
use project_r_core.EasyFs.Efs.{
  plan, layout, get_disk_inode_pos, write_super, read_super, open_efs, open_super, format, u32,
}

-- The regions of a new file system lie one behind the other without a gap: the super block, the bitmap
-- of inodes, the inodes, the bitmap of data blocks, and the data blocks up to the end of the device.
-- Each inode of the bitmap has its place in the region of inodes, and the bitmap of data blocks has a
-- bit for each data block: provided that the device has room for the regions of inodes and for two
-- blocks more, and less than 2 ^ 32 - 4096 blocks.
pub plan_regions :
    (total n : ℕ)
    → n < 2 ^ 20
    → n * 1025 + 3 ≤ total
    → total + 4096 < 2 ^ 32
    → let efs = layout total n in
      let p = plan total n in
      (efs.inode_bitmap.start_block_id ≡ 1)
      × (efs.inode_area_start_block ≡ 1 + n)
      × (efs.data_bitmap.start_block_id ≡ 1 + n + n * 1024)
      × (efs.data_area_start_block ≡ efs.data_bitmap.start_block_id + efs.data_bitmap.blocks)
      × (efs.data_area_start_block + p.data_area_blocks ≡ total)
      × ((i : ℕ)
          → i < maximum efs.inode_bitmap
          → (1 + n ≤ (get_disk_inode_pos efs i).0)
            × ((get_disk_inode_pos efs i).0 < efs.data_bitmap.start_block_id)
            × ((get_disk_inode_pos efs i).1 + 128 ≤ 512))
      × (p.data_area_blocks ≤ maximum efs.data_bitmap)
unfolding layout plan get_disk_inode_pos maximum
plan_regions total n small room fits = (
  refl,
  omega arith,
  omega arith,
  omega arith,
  omega arith,
  (λ i h. (omega arith, omega arith, omega arith)),
  omega arith,
)

pass : (d : Disk) (j k v : ℕ) → k < j → word 4 (set_word 4 d 0 j v) 0 k ≡ word 4 d 0 k
pass d j k v h = word32_ne d 0 0 j k v (inr (omega arith))

-- The super block is read as it was written.
read_super-write_super :
    (s : SuperBlock) (d : Disk)
    → s.magic < 2 ^ 32
    → s.total_blocks < 2 ^ 32
    → s.inode_bitmap_blocks < 2 ^ 32
    → s.inode_area_blocks < 2 ^ 32
    → s.data_bitmap_blocks < 2 ^ 32
    → s.data_area_blocks < 2 ^ 32
    → read_super (write_super s d) ≡ s
unfolding read_super write_super
read_super-write_super s d h0 h1 h2 h3 h4 h5 =
    rw
      (
        pass _ 5 0 s.data_area_blocks (omega arith),
        pass _ 4 0 s.data_bitmap_blocks (omega arith),
        pass _ 3 0 s.inode_area_blocks (omega arith),
        pass _ 2 0 s.inode_bitmap_blocks (omega arith),
        pass _ 1 0 s.total_blocks (omega arith),
        word-set_word_self 4 d 0 0 s.magic h0,
        pass _ 5 1 s.data_area_blocks (omega arith),
        pass _ 4 1 s.data_bitmap_blocks (omega arith),
        pass _ 3 1 s.inode_area_blocks (omega arith),
        pass _ 2 1 s.inode_bitmap_blocks (omega arith),
        word-set_word_self 4 _ 0 1 s.total_blocks h1,
        pass _ 5 2 s.data_area_blocks (omega arith),
        pass _ 4 2 s.data_bitmap_blocks (omega arith),
        pass _ 3 2 s.inode_area_blocks (omega arith),
        word-set_word_self 4 _ 0 2 s.inode_bitmap_blocks h2,
        pass _ 5 3 s.data_area_blocks (omega arith),
        pass _ 4 3 s.data_bitmap_blocks (omega arith),
        word-set_word_self 4 _ 0 3 s.inode_area_blocks h3,
        pass _ 5 4 s.data_area_blocks (omega arith),
        word-set_word_self 4 _ 0 4 s.data_bitmap_blocks h4,
        word-set_word_self 4 _ 0 5 s.data_area_blocks h5,
      )
      refl

same_layout :
    (total n : ℕ)
    → n < 2 ^ 20
    → n * 1025 + 3 ≤ total
    → total + 4096 < 2 ^ 32
    → (record {
      inode_bitmap = record { start_block_id = 1; blocks = n };
      data_bitmap = record {
        start_block_id = u32 (1 + u32 (n + (plan total n).inode_area_blocks));
        blocks = (plan total n).data_bitmap_blocks;
      };
      inode_area_start_block = u32 (1 + n);
      data_area_start_block =
          u32 (1 + u32 (n + (plan total n).inode_area_blocks) + (plan total n).data_bitmap_blocks);
    })
      ≡ layout total n
unfolding layout plan maximum
same_layout total n small room fits =
    let e : u32 (1 + u32 (n + (plan total n).inode_area_blocks))
        ≡ u32 (1 + n + (plan total n).inode_area_blocks) =
      omega arith in
    rw e refl

-- A file system that is opened from a device finds the regions that `create` planned when it formatted
-- the device.
pub open-format :
    (total n : ℕ) (d : Disk)
    → n < 2 ^ 20
    → n * 1025 + 3 ≤ total
    → total + 4096 < 2 ^ 32
    → open_efs (format total n d) ≡ some (layout total n)
unfolding open_efs format layout plan maximum initialize_super is_valid_super open_super
open-format total n d small room fits =
    ap open_super (
      read_super-write_super
        (initialize_super total n (plan total n).inode_area_blocks (plan total n).data_bitmap_blocks
          (plan total n).data_area_blocks)
        _ (omega arith) (omega arith) (omega arith) (omega arith) (omega arith) (omega arith))
    ∙ ap some (same_layout total n small room fits)
