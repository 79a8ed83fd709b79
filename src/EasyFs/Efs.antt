-- ===== src/EasyFs/Efs.antt =====
-- src/easy-fs/src/efs.rs: the regions of a file system on its device, how it is created and opened, and
-- the blocks and inodes that it gives out. Blocks are accessed through the cache, which looks like the
-- disk itself (BlockCache/Refine).
pub mod Regions
mod Tests
use project_r_core.Common.{
  ℕ, zero, suc, ◌+◌, ◌-◌, ◌*◌, ◌/◌, ◌%◌, ◌^◌, Bool, true, false, Option, none, some, List, [], ◌∷◌,
  ◌==◌, if◌then◌else◌, assert, ◌>>=◌, ◌>>◌, ltb,
}
use project_r_core.Common.Bytes.{Bytes, le_read, le_write}
use project_r_core.EasyFs.Disk.{Disk, block_size, put, word, set_word}
use project_r_core.EasyFs.Bitmap.{Bitmap, alloc, dealloc, maximum, block_bits}
use project_r_core.EasyFs.Layout.{
  SuperBlock, DiskInode, DiskInodeType, initialize_super, is_valid_super, initialize,
}

-- EasyFileSystem, without the device.
pub record EasyFileSystem : Type 0 where
  pub inode_bitmap : Bitmap
  pub data_bitmap : Bitmap
  pub inode_area_start_block : ℕ
  pub data_area_start_block : ℕ

abbrev pub disk_inode_size : ℕ
disk_inode_size = 128

-- Arithmetic on `u32`.
abbrev pub u32 : ℕ → ℕ
u32 n = n % 2 ^ 32

abbrev pub sub_u32 : ℕ → ℕ → ℕ
sub_u32 a b = (a + 2 ^ 32 - b) % 2 ^ 32

-- The numbers that `create` computes, in the order of its `let`s.
pub record Plan : Type 0 where
  pub inode_area_blocks : ℕ
  pub inode_total_block : ℕ
  pub data_total_blocks : ℕ
  pub data_bitmap_blocks : ℕ
  pub data_area_blocks : ℕ

unfoldable pub plan : ℕ → ℕ → Plan
unfolding maximum
plan total_blocks inode_bitmap_blocks =
    let inode_num = maximum (record { start_block_id = 1; blocks = inode_bitmap_blocks }) in
    let inode_area = u32 ((inode_num * disk_inode_size + block_size - 1) / block_size) in
    let inode_total = u32 (inode_bitmap_blocks + inode_area) in
    let data_total = sub_u32 (sub_u32 total_blocks 1) inode_total in
    let data_bitmap = u32 (data_total + block_bits) / (block_bits + 1) in
    record {
      inode_area_blocks = inode_area;
      inode_total_block = inode_total;
      data_total_blocks = data_total;
      data_bitmap_blocks = data_bitmap;
      data_area_blocks = sub_u32 data_total data_bitmap;
    }

unfoldable pub layout : ℕ → ℕ → EasyFileSystem
layout total_blocks inode_bitmap_blocks =
    let p = plan total_blocks inode_bitmap_blocks in
    record {
      inode_bitmap = record { start_block_id = 1; blocks = inode_bitmap_blocks };
      data_bitmap = record {
        start_block_id = u32 (1 + inode_bitmap_blocks + p.inode_area_blocks);
        blocks = p.data_bitmap_blocks;
      };
      inode_area_start_block = u32 (1 + inode_bitmap_blocks);
      data_area_start_block = u32 (1 + p.inode_total_block + p.data_bitmap_blocks);
    }

-- The six integers of the super block in block 0.
pub write_super : SuperBlock → Disk → Disk
write_super s d =
    set_word 4
      (set_word 4
        (set_word 4
          (set_word 4 (set_word 4 (set_word 4 d 0 0 s.magic) 0 1 s.total_blocks) 0 2
            s.inode_bitmap_blocks)
          0 3 s.inode_area_blocks)
        0 4 s.data_bitmap_blocks)
      0 5 s.data_area_blocks

pub read_super : Disk → SuperBlock
read_super d = record {
  magic = word 4 d 0 0;
  total_blocks = word 4 d 0 1;
  inode_bitmap_blocks = word 4 d 0 2;
  inode_area_blocks = word 4 d 0 3;
  data_bitmap_blocks = word 4 d 0 4;
  data_area_blocks = word 4 d 0 5;
}

unfoldable pub get_disk_inode_pos : EasyFileSystem → ℕ → ℕ × ℕ
get_disk_inode_pos efs inode_id =
    let inodes_pre_block = block_size / disk_inode_size in
    (
      u32 (efs.inode_area_start_block + inode_id / inodes_pre_block),
      inode_id % inodes_pre_block * disk_inode_size,
    )

unfoldable pub get_data_block_id : EasyFileSystem → ℕ → ℕ
get_data_block_id efs data_block_id = u32 (efs.data_area_start_block + data_block_id)

-- `unwrap` of what the bitmap returns.
pub alloc_inode : EasyFileSystem → Disk → Option (ℕ × Disk)
alloc_inode efs d = let (bit, d') = alloc efs.inode_bitmap d in (bit >>= λ i. some (u32 i, d'))

pub alloc_data : EasyFileSystem → Disk → Option (ℕ × Disk)
alloc_data efs d =
    let (bit, d') = alloc efs.data_bitmap d in
    (bit >>= λ i. some (get_data_block_id efs (u32 i), d'))

-- The block is erased before its bit is reset.
pub dealloc_data : EasyFileSystem → ℕ → Disk → Option Disk
dealloc_data efs block_id d =
    dealloc efs.data_bitmap (put d block_id (λ a. 0)) (sub_u32 block_id efs.data_area_start_block)

-- The closure of `open`; `none` is the failed assertion on the magic number.
pub open_super : SuperBlock → Option EasyFileSystem
open_super s =
    let inode_total = u32 (s.inode_bitmap_blocks + s.inode_area_blocks) in
    assert (is_valid_super s)
    >> some (record {
      inode_bitmap = record { start_block_id = 1; blocks = s.inode_bitmap_blocks };
      data_bitmap = record {
        start_block_id = u32 (1 + inode_total);
        blocks = s.data_bitmap_blocks;
      };
      inode_area_start_block = u32 (1 + s.inode_bitmap_blocks);
      data_area_start_block = u32 (1 + inode_total + s.data_bitmap_blocks);
    })

-- EasyFileSystem::open
pub open_efs : Disk → Option EasyFileSystem
unfolding read_super open_super
open_efs d = open_super (read_super d)

-- `create` up to the super block: every block is erased, then block 0 is written.
pub format : ℕ → ℕ → Disk → Disk
unfolding write_super
format total_blocks inode_bitmap_blocks d =
    let p = plan total_blocks inode_bitmap_blocks in
    let erased : Disk = λ b. if ltb b total_blocks then (λ a. 0) else d b in
    write_super
      (initialize_super total_blocks inode_bitmap_blocks p.inode_area_blocks p.data_bitmap_blocks
        p.data_area_blocks)
      erased
