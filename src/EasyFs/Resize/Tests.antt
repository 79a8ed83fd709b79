-- ===== src/EasyFs/Resize/Tests.antt =====
-- The theorems on `increase_size` and `clear_size` of src/easy-fs/src/layout.rs at a concrete file.
use project_r_core.Common.{◌≡◌, refl, arith, some, [], ◌∷◌, ◌++◌, length, replicate}
use project_r_core.EasyFs.Disk.{Disk}
use project_r_core.EasyFs.Layout.{
  DiskInode, DiskInodeType, total_blocks, blocks_num_needed, data_blocks_of,
}
use project_r_core.EasyFs.Resize.{Clearing, increase_size, clear_size}
use project_r_core.EasyFs.Resize.Index.{slot, slots}
use project_r_core.EasyFs.Resize.Increase.{increase_size-slots}
use project_r_core.EasyFs.Resize.Clear.{clear_size-slots}

-- 600 bytes in blocks 70 and 71.
abbrev inode : DiskInode
inode = record {
  size = 600;
  direct = 70 ∷ 71 ∷ replicate 26 0;
  indirect1 = 0;
  indirect2 = 0;
  type_ = DiskInodeType.file;
}

abbrev disk : Disk
disk b a = 0

increase_size-slots_example :
    let all = slots inode disk 0 (total_blocks 600) ++ (90 ∷ 80 ∷ []) in
    (inode' : DiskInode) × (d' : Disk) × (increase_size inode 2000 (90 ∷ 80 ∷ []) disk
      ≡ some (inode', d'))
    × (slots inode' d' 0 (total_blocks 2000) ≡ all)
    × (inode'.size ≡ 2000)
    × (inode'.type_ ≡ DiskInodeType.file)
    × (length inode'.direct ≡ 28)
unfolding slots slot total_blocks data_blocks_of blocks_num_needed
increase_size-slots_example =
    increase_size-slots inode 2000 (90 ∷ 80 ∷ []) disk refl (omega arith) (omega arith) refl
      (refl, (refl, (refl, (refl, tt))))
      (omega arith, (omega arith, (omega arith, (omega arith, tt))))

clear_size-slots_example :
    (c : Clearing) × (clear_size inode disk ≡ some c)
    × (c.v ≡ slots inode disk 0 (total_blocks 600))
    × (length c.v ≡ total_blocks 600)
    × (c.inode.size ≡ 0)
unfolding slots slot total_blocks data_blocks_of
clear_size-slots_example = clear_size-slots inode disk (omega arith) (refl, (refl, tt))
