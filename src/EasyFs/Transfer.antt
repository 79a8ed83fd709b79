-- ===== src/EasyFs/Transfer.antt =====
-- src/easy-fs/src/layout.rs: `read_at` and `write_at` of an inode on the disk, and the directory entries.
-- A loop is on fuel; `none` is a panic, or no fuel.
pub mod Entry
pub mod Reading
mod Tests
use project_r_core.Common.{
  ℕ, zero, suc, ◌+◌, ◌-◌, ◌*◌, ◌/◌, ◌%◌, ◌^◌, min, Bool, true, false, Option, none, some, List, [],
  ◌∷◌, ◌++◌, ◌==◌, leb, if◌then◌else◌, assert, ◌>>=◌, ◌>>◌, length, take, drop, replicate,
}
use project_r_core.Common.Bytes.{Bytes, update}
use project_r_core.EasyFs.Disk.{Disk, block_size, put}
use project_r_core.EasyFs.Layout.{DiskInode, get_block_id}

-- &data_block[from..from + n]
pub slice : Bytes → ℕ → ℕ → List ℕ
slice m from zero = []
slice m from (suc n) = m from ∷ slice m (from + 1) n

-- data_block[from..].copy_from_slice(src)
pub copy_from_slice : Bytes → ℕ → List ℕ → Bytes
copy_from_slice m from [] = m
copy_from_slice m from (x ∷ xs) = copy_from_slice (update m from x) (from + 1) xs

-- The loop of `read_at`: the bytes read so far are the front of `buf`.
pub read_loop : ℕ → DiskInode → Disk → ℕ → ℕ → ℕ → List ℕ → Option (ℕ × List ℕ)
unfolding slice
read_loop zero inode d end start start_block got = none
read_loop (suc fuel) inode d end start start_block got =
    let end_current_block = min ((start_block + 1) * block_size) end in
    let block_read_size = end_current_block - start in
    get_block_id inode (start_block % 2 ^ 32) d >>= λ b.
    let got' = got ++ slice (d b) (start % block_size) block_read_size in
    if end_current_block == end
    then some (length got', got')
    else read_loop fuel inode d end end_current_block (start_block + 1) got'

-- `len` is the length of `buf`.
pub read_at : DiskInode → ℕ → ℕ → Disk → Option (ℕ × List ℕ)
unfolding read_loop
read_at inode offset len d =
    let end = min ((offset + len) % 2 ^ 64) inode.size in
    if leb end offset
    then some (0, [])
    else read_loop (end / block_size + 1) inode d end offset (offset / block_size) []

pub write_loop : ℕ → DiskInode → Disk → ℕ → ℕ → ℕ → List ℕ → ℕ → Option (ℕ × Disk)
unfolding copy_from_slice
write_loop zero inode d end start start_block buf write_size = none
write_loop (suc fuel) inode d end start start_block buf write_size =
    let end_current_block = min ((start_block + 1) * block_size) end in
    let block_write_size = end_current_block - start in
    let src = take block_write_size (drop write_size buf) in
    get_block_id inode (start_block % 2 ^ 32) d >>= λ b.
    let d' = put d b (copy_from_slice (d b) (start % block_size) src) in
    if end_current_block == end
    then some (write_size + block_write_size, d')
    else write_loop fuel inode d' end end_current_block (start_block + 1) buf
        (write_size + block_write_size)

pub write_at : DiskInode → ℕ → List ℕ → Disk → Option (ℕ × Disk)
unfolding write_loop
write_at inode offset buf d =
    let end = min ((offset + length buf) % 2 ^ 64) inode.size in
    if leb end offset
    then some (0, d)
    else write_loop (end / block_size + 1) inode d end offset (offset / block_size) buf 0

abbrev pub name_length_limit : ℕ
name_length_limit = 27

abbrev pub dir_entry_size : ℕ
dir_entry_size = 32

pub record DirEntry : Type 0 where
  pub entry_name : List ℕ
  pub entry_inode_number : ℕ

-- DirEntry::empty
pub empty_entry : DirEntry
empty_entry = record { entry_name = replicate (name_length_limit + 1) 0; entry_inode_number = 0 }

-- DirEntry::new
pub new_entry : List ℕ → ℕ → Option DirEntry
new_entry name inode_number =
    assert (leb (length name) name_length_limit)
    >> some (record {
      entry_name = name ++ (0 ∷ replicate (name_length_limit - length name) 0);
      entry_inode_number = inode_number;
    })

-- The bytes before the first 0; without one, the search runs out of the array and panics.
pub until_zero : List ℕ → Option (List ℕ)
until_zero [] = none
until_zero (x ∷ xs) =
    let rest = until_zero xs in if x == 0 then some [] else (rest >>= λ ys. some (x ∷ ys))

-- DirEntry::name, as bytes
pub name : DirEntry → Option (List ℕ)
unfolding until_zero
name e = until_zero e.entry_name

-- The bytes of a `u32`, the lowest first.
pub le_bytes : ℕ → ℕ → List ℕ
le_bytes zero v = []
le_bytes (suc n) v = v % 256 ∷ le_bytes n (v / 256)

pub le_value : List ℕ → ℕ
le_value [] = 0
le_value (x ∷ xs) = x + 256 * le_value xs

-- DirEntry::as_bytes
pub as_bytes : DirEntry → List ℕ
unfolding le_bytes
as_bytes e = e.entry_name ++ le_bytes 4 e.entry_inode_number

-- A directory entry that was read into `as_bytes_mut`.
pub from_bytes : List ℕ → DirEntry
unfolding le_value
from_bytes bytes = record {
  entry_name = take (name_length_limit + 1) bytes;
  entry_inode_number = le_value (drop (name_length_limit + 1) bytes);
}
