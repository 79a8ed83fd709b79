-- ===== src/EasyFs/Vfs.antt =====
-- src/easy-fs/src/vfs.rs: the files of the root directory. `none` is a panic. `block_cache_sync_all` does
-- not show on the disk as it is seen through the cache (BlockCache/Sync).
use project_r_core.Common.{
  ℕ, zero, suc, ◌+◌, ◌*◌, ◌/◌, Bool, true, false, Option, none, some, List, [], ◌∷◌, ◌==◌, ◌&&◌,
  ltb, if◌then◌else◌, assert, ◌>>=◌, ◌>>◌, length,
}
use project_r_core.Common.Bytes.{Bytes, update, le_read, le_write}
use project_r_core.EasyFs.Disk.{Disk, put}
use project_r_core.EasyFs.Layout.{
  DiskInode, DiskInodeType, initialize, is_dir, total_blocks, blocks_num_needed,
}
use project_r_core.EasyFs.Resize.{increase_size, clear_size}
use project_r_core.EasyFs.Transfer.{
  DirEntry, dir_entry_size, read_at, write_at, new_entry, name, as_bytes, from_bytes,
}
use project_r_core.EasyFs.Efs.{
  EasyFileSystem, get_disk_inode_pos, alloc_inode, alloc_data, dealloc_data, u32, layout, format,
}

pub record Inode : Type 0 where
  pub block_id : ℕ
  pub block_offset : ℕ

-- `n` integers of 32 bits in memory.
read_array : ℕ → Bytes → ℕ → List ℕ
read_array zero m at = []
read_array (suc n) m at = le_read 4 m at ∷ read_array n m (at + 4)

write_array : List ℕ → Bytes → ℕ → Bytes
write_array [] m at = m
write_array (x ∷ xs) m at = write_array xs (le_write 4 m at x) (at + 4)

type_of : ℕ → DiskInodeType
type_of byte = if byte == 0 then DiskInodeType.file else DiskInodeType.directory

byte_of : DiskInodeType → ℕ
byte_of DiskInodeType.file = 0
byte_of DiskInodeType.directory = 1

-- The inode on the disk that an `Inode` stands for: Inode::read_disk_inode.
pub read_disk_inode : Inode → Disk → DiskInode
unfolding read_array type_of
read_disk_inode i d =
    let m = d i.block_id in
    record {
      size = le_read 4 m i.block_offset;
      direct = read_array 28 m (i.block_offset + 4);
      indirect1 = le_read 4 m (i.block_offset + 116);
      indirect2 = le_read 4 m (i.block_offset + 120);
      type_ = type_of (m (i.block_offset + 124));
    }

-- What Inode::modify_disk_inode leaves when its closure ends with this inode.
pub write_disk_inode : Inode → DiskInode → Disk → Disk
unfolding write_array byte_of
write_disk_inode i inode d =
    let at = i.block_offset in
    let m1 = write_array inode.direct (le_write 4 (d i.block_id) at inode.size) (at + 4) in
    let m2 = le_write 4 (le_write 4 m1 (at + 116) inode.indirect1) (at + 120) inode.indirect2 in
    put d i.block_id (update m2 (at + 124) (byte_of inode.type_))

eq_bytes : List ℕ → List ℕ → Bool
eq_bytes [] [] = true
eq_bytes [] (y ∷ ys) = false
eq_bytes (x ∷ xs) [] = false
eq_bytes (x ∷ xs) (y ∷ ys) = x == y && eq_bytes xs ys

-- The `i`-th directory entry, of which all bytes must be there.
pub read_entry : DiskInode → ℕ → Disk → Option DirEntry
read_entry inode i d = do
  (n, bytes) ← read_at inode (dir_entry_size * i) dir_entry_size d
  assert (n == dir_entry_size)
  some (from_bytes bytes)

-- The loop of `find_inode_id`, with `n` entries left.
find_loop : ℕ → ℕ → List ℕ → DiskInode → Disk → Option (Option ℕ)
unfolding eq_bytes read_entry
find_loop zero i text inode d = some none
find_loop (suc n) i text inode d = do
  e ← read_entry inode i d
  text' ← name e
  let rest = find_loop n (i + 1) text inode d
  if eq_bytes text' text then some (some e.entry_inode_number) else rest

pub find_inode_id : List ℕ → DiskInode → Disk → Option (Option ℕ)
unfolding find_loop
find_inode_id text inode d =
    assert (is_dir inode) >> find_loop (inode.size / dir_entry_size) 0 text inode d

inode_at : EasyFileSystem → ℕ → Inode
inode_at efs number =
    let (block_id, block_offset) = get_disk_inode_pos efs number in
    record { block_id = block_id; block_offset = block_offset }

-- EasyFileSystem::root_inode
pub root_inode : EasyFileSystem → Inode
unfolding inode_at
root_inode efs = inode_at efs 0

-- Inode::find
pub find : EasyFileSystem → Inode → List ℕ → Disk → Option (Option Inode)
unfolding find_inode_id inode_at
find efs i text d = find_inode_id text (read_disk_inode i d) d >>= λ r.
    some (elim r [ none ↦ none | some number ↦ some (inode_at efs number) ])

ls_loop : ℕ → ℕ → DiskInode → Disk → Option (List (List ℕ))
unfolding read_entry
ls_loop zero i inode d = some []
ls_loop (suc n) i inode d = do
  e ← read_entry inode i d
  text ← name e
  rest ← ls_loop n (i + 1) inode d
  some (text ∷ rest)

pub ls : Inode → Disk → Option (List (List ℕ))
unfolding ls_loop
ls i d = let inode = read_disk_inode i d in ls_loop (inode.size / dir_entry_size) 0 inode d

-- The loop that fills `new_blocks`.
pub alloc_blocks : ℕ → EasyFileSystem → Disk → Option (List ℕ × Disk)
alloc_blocks zero efs d = some ([], d)
alloc_blocks (suc n) efs d = do
  (b, d') ← alloc_data efs d
  (rest, d'') ← alloc_blocks n efs d'
  some (b ∷ rest, d'')

-- Inode::increase_size
pub grow_inode : EasyFileSystem → ℕ → DiskInode → Disk → Option (DiskInode × Disk)
unfolding alloc_blocks
grow_inode efs new_size inode d =
    if ltb new_size inode.size
    then some (inode, d)
    else (blocks_num_needed inode new_size >>= λ needed.
        alloc_blocks needed efs d >>= λ r. increase_size inode new_size r.0 r.1)

-- The entry that `create` appends to the directory.
pub append_entry : EasyFileSystem → Inode → List ℕ → ℕ → Disk → Option Disk
unfolding grow_inode
append_entry efs dir text number d = do
  let inode = read_disk_inode dir d
  (inode', d1) ← grow_inode efs (u32 (inode.size + dir_entry_size)) inode d
  e ← new_entry text number
  (n, d2) ← write_at inode' inode.size (as_bytes e) d1
  some (write_disk_inode dir inode' d2)

-- `create` once the name is known to be free.
pub create_new : EasyFileSystem → Inode → List ℕ → Disk → Option (Option Inode × Disk)
unfolding append_entry inode_at
create_new efs dir text d = do
  (number, d1) ← alloc_inode efs d
  let i = inode_at efs number
  d3 ← append_entry efs dir text number (write_disk_inode i (initialize DiskInodeType.file) d1)
  some (some i, d3)

-- Inode::create
pub create : EasyFileSystem → Inode → List ℕ → Disk → Option (Option Inode × Disk)
unfolding create_new find_inode_id
create efs dir text d = find_inode_id text (read_disk_inode dir d) d >>= λ r. elim r [
  | some number ↦ some (none, d)
  | none ↦ create_new efs dir text d
]

dealloc_all : List ℕ → EasyFileSystem → Disk → Option Disk
dealloc_all [] efs d = some d
dealloc_all (b ∷ bs) efs d = dealloc_data efs b d >>= dealloc_all bs efs

-- Inode::clear
pub clear : EasyFileSystem → Inode → Disk → Option Disk
unfolding dealloc_all
clear efs i d = do
  let inode = read_disk_inode i d
  c ← clear_size inode d
  assert (length c.v == total_blocks inode.size)
  d' ← dealloc_all c.v efs c.disk
  some (write_disk_inode i c.inode d')

-- Inode::read_at
pub read_file : Inode → ℕ → ℕ → Disk → Option (ℕ × List ℕ)
read_file i offset len d = read_at (read_disk_inode i d) offset len d

-- Inode::write_at
pub write_file : EasyFileSystem → Inode → ℕ → List ℕ → Disk → Option (ℕ × Disk)
unfolding grow_inode
write_file efs i offset buf d = do
  (inode, d1) ← grow_inode efs (u32 (offset + length buf)) (read_disk_inode i d) d
  (n, d2) ← write_at inode offset buf d1
  some (n, write_disk_inode i inode d2)

-- EasyFileSystem::create; `none` is also the failed assertion on the number of the root inode.
pub create_efs : ℕ → ℕ → Disk → Option (EasyFileSystem × Disk)
create_efs total_blocks inode_bitmap_blocks d = do
  let efs = layout total_blocks inode_bitmap_blocks
  (number, d1) ← alloc_inode efs (format total_blocks inode_bitmap_blocks d)
  assert (number == 0)
  some (efs, write_disk_inode (root_inode efs) (initialize DiskInodeType.directory) d1)
