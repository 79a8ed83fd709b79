-- ===== src/EasyFs/Layout.antt =====
-- src/easy-fs/src/layout.rs: the super block, the inode on the disk, its sizes in blocks, and the block of
-- the `i`-th part of a file. The arrays of an inode have the length that its type gives them.
use project_r_core.Common.{
  ℕ, ◌+◌, ◌-◌, ◌*◌, ◌/◌, ◌%◌, ◌^◌, Bool, true, false, Option, some, List, ◌==◌, ltb, leb,
  if◌then◌else◌, assert, ◌>>◌, get_or, replicate,
}
use project_r_core.EasyFs.Disk.{Disk, block_size, word}

abbrev pub efs_magic : ℕ
efs_magic = 0x3b800001

abbrev pub inode_direct_count : ℕ
inode_direct_count = 28

abbrev pub inode_indirect1_count : ℕ
inode_indirect1_count = block_size / 4

abbrev pub inode_indirect2_count : ℕ
inode_indirect2_count = inode_indirect1_count * inode_indirect1_count

abbrev pub direct_bound : ℕ
direct_bound = inode_direct_count

abbrev pub indirect1_bound : ℕ
indirect1_bound = direct_bound + inode_indirect1_count

abbrev pub indirect2_bound : ℕ
indirect2_bound = indirect1_bound + inode_indirect2_count

pub record SuperBlock : Type 0 where
  pub magic : ℕ
  pub total_blocks : ℕ
  pub inode_bitmap_blocks : ℕ
  pub inode_area_blocks : ℕ
  pub data_bitmap_blocks : ℕ
  pub data_area_blocks : ℕ

-- SuperBlock::initialize
unfoldable pub initialize_super : ℕ → ℕ → ℕ → ℕ → ℕ → SuperBlock
initialize_super total inode_bitmap inode_area data_bitmap data_area = record {
  magic = efs_magic;
  total_blocks = total;
  inode_bitmap_blocks = inode_bitmap;
  inode_area_blocks = inode_area;
  data_bitmap_blocks = data_bitmap;
  data_area_blocks = data_area;
}

-- SuperBlock::is_valid
unfoldable pub is_valid_super : SuperBlock → Bool
is_valid_super s = s.magic == efs_magic

pub data DiskInodeType : Type 0 where
  file directory : DiskInodeType

pub record DiskInode : Type 0 where
  pub size : ℕ
  pub direct : List ℕ
  pub indirect1 : ℕ
  pub indirect2 : ℕ
  pub type_ : DiskInodeType

-- DiskInode::initialize
unfoldable pub initialize : DiskInodeType → DiskInode
initialize kind = record {
  size = 0;
  direct = replicate inode_direct_count 0;
  indirect1 = 0;
  indirect2 = 0;
  type_ = kind;
}

unfoldable pub is_dir : DiskInode → Bool
is_dir inode = elim inode.type_ [ DiskInodeType.directory ↦ true | DiskInodeType.file ↦ false ]

-- DiskInode::get_block_id
unfoldable pub get_block_id : DiskInode → ℕ → Disk → Option ℕ
get_block_id inode inner_id d =
    assert (ltb inner_id indirect2_bound)
    >> some (
        if ltb inner_id direct_bound
        then get_or inode.direct inner_id 0
        else if ltb inner_id indirect1_bound
        then word 4 d inode.indirect1 (inner_id - direct_bound)
        else (let inner = inner_id - indirect1_bound in
            let indirect1_block_id = word 4 d inode.indirect2 (inner / inode_indirect1_count) in
            word 4 d indirect1_block_id (inner % inode_indirect1_count)))

-- DiskInode::_data_blocks, of 32 bits
unfoldable pub data_blocks_of : ℕ → ℕ
data_blocks_of size = (size + block_size - 1) % 2 ^ 32 / block_size

unfoldable pub data_blocks : DiskInode → ℕ
data_blocks inode = data_blocks_of inode.size

-- DiskInode::total_blocks
unfoldable pub total_blocks : ℕ → ℕ
total_blocks size =
    let blocks = data_blocks_of size in
    let total = blocks in
    let total1 = if ltb direct_bound blocks then total + 1 else total in
    if ltb indirect1_bound blocks
    then total1 + 1 + (blocks - indirect1_bound + inode_indirect1_count - 1) / inode_indirect1_count
    else total1

-- DiskInode::blocks_num_needed
unfoldable pub blocks_num_needed : DiskInode → ℕ → Option ℕ
blocks_num_needed inode new_size =
    assert (leb inode.size new_size) >> some (total_blocks new_size - total_blocks inode.size)
