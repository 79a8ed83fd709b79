-- ===== src/EasyFs/Transfer/Tests.antt =====
-- The theorems on reading of src/easy-fs/src/layout.rs at a concrete file and a concrete entry.
use project_r_core.Common.{◌+◌, ◌≡◌, arith, some, [], ◌∷◌, replicate, length}
use project_r_core.EasyFs.Disk.{Disk}
use project_r_core.EasyFs.Layout.{DiskInode, DiskInodeType}
use project_r_core.EasyFs.Transfer.{DirEntry, read_at, new_entry, name, as_bytes, from_bytes}
use project_r_core.EasyFs.Transfer.Reading.{file_bytes, read_at-file_bytes}
use project_r_core.EasyFs.Transfer.Entry.{entry_roundtrip}

abbrev inode : DiskInode
inode = record {
  size = 600;
  direct = 70 ∷ 71 ∷ replicate 26 0;
  indirect1 = 0;
  indirect2 = 0;
  type_ = DiskInodeType.file;
}

abbrev disk : Disk
disk b a = b + a

read_at-file_bytes_example : read_at inode 500 200 disk ≡ some (100, file_bytes inode disk 500 100)
read_at-file_bytes_example = read_at-file_bytes inode 500 200 disk (omega arith) (omega arith)

entry_roundtrip_example :
    (e : DirEntry) × (new_entry (97 ∷ 98 ∷ []) 5 ≡ some e)
    × (length (as_bytes e) ≡ 32)
    × (name (from_bytes (as_bytes e)) ≡ some (97 ∷ 98 ∷ []))
    × ((from_bytes (as_bytes e)).entry_inode_number ≡ 5)
entry_roundtrip_example =
    entry_roundtrip (97 ∷ 98 ∷ []) 5 (omega arith) ((λ e. omega arith), ((λ e. omega arith), tt))
      (omega arith)
