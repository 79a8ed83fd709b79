-- ===== src/Kernel/Files.antt =====
-- src/os/src/fs/inode.rs, `alloc_fd` of src/os/src/task/task.rs and src/os/src/syscall/fs.rs: open files, the table
-- of a task, and the system calls on them. -1 is `none`; a panic inside `Option` of a result is the
-- outer `none`.
pub mod Table
mod Tests
use project_r_core.Common.{
  ℕ, zero, suc, ◌+◌, ◌-◌, ◌*◌, ◌/◌, ◌%◌, ◌^◌, bit_and, Bool, true, false, not, ◌&&◌, ◌||◌, Option,
  none, some, List, [], ◌∷◌, ◌++◌, ◌==◌, ltb, leb, if◌then◌else◌, assert, ◌>>=◌, ◌>>◌, length,
  get_elem?, set, take, drop,
}
use project_r_core.EasyFs.Disk.{Disk, block_size}
use project_r_core.EasyFs.Efs.{EasyFileSystem}
use project_r_core.EasyFs.Vfs.{Inode, root_inode, find, create, clear, read_file, write_file}

-- OSInode with its inner part.
pub record OsInode : Type 0 where
  pub readable : Bool
  pub writable : Bool
  pub offset : ℕ
  pub inode : Inode

-- OSInode::new
pub new_os_inode : Bool → Bool → Inode → OsInode
new_os_inode readable writable inode = record {
  readable = readable;
  writable = writable;
  offset = 0;
  inode = inode;
}

-- OpenFlags
abbrev pub write_only : ℕ
write_only = 1

abbrev pub create_flag : ℕ
create_flag = 512

abbrev pub truncate_flag : ℕ
truncate_flag = 1024

pub contains : ℕ → ℕ → Bool
contains flags flag = bit_and flags flag == flag

pub read_write : ℕ → Bool × Bool
unfolding contains
read_write flags =
    if flags == 0
    then (true, false)
    else if contains flags write_only
    then (false, true)
    else (true, true)

-- `find` succeeded: the file is cleared if asked for.
open_found : EasyFileSystem → Bool → ℕ → Inode → Disk → Option (Option OsInode × Disk)
unfolding read_write
open_found efs clears flags inode d =
    let (readable, writable) = read_write flags in
    let file = new_os_inode readable writable inode in
    if clears then (clear efs inode d >>= λ d'. some (some file, d')) else some (some file, d)

open_created : ℕ → Option Inode × Disk → Option OsInode × Disk
unfolding read_write
open_created flags (none, d) = (none, d)
open_created flags (some inode, d) =
    let (readable, writable) = read_write flags in (some (new_os_inode readable writable inode), d)

pub open_file : EasyFileSystem → List ℕ → ℕ → Disk → Option (Option OsInode × Disk)
unfolding contains open_found open_created
open_file efs text flags d = find efs (root_inode efs) text d >>= λ r. elim r [
  | some inode ↦
      open_found efs (contains flags create_flag || contains flags truncate_flag) flags inode d
  | none ↦
      if contains flags create_flag
      then (create efs (root_inode efs) text d >>= λ c. some (open_created flags c))
      else some (none, d)
]

-- OSInode::read over the pieces of a user buffer, by their lengths: the bytes, piece by piece.
pub read_pieces : OsInode → List ℕ → Disk → Option (List (List ℕ) × OsInode)
read_pieces f [] d = some ([], f)
read_pieces f (len ∷ lens) d = read_file f.inode f.offset len d >>= λ r.
    (if r.0 == 0
      then some ([], f)
      else (read_pieces (record f { offset = f.offset + r.0 }) lens d >>= λ rest.
          some (r.1 ∷ rest.0, rest.1)))

-- OSInode::write over the pieces of a user buffer.
pub write_pieces : EasyFileSystem → OsInode → List (List ℕ) → Disk → Option (ℕ × OsInode × Disk)
write_pieces efs f [] d = some (0, f, d)
write_pieces efs f (piece ∷ pieces) d = write_file efs f.inode f.offset piece d >>= λ r.
    assert (r.0 == length piece)
    >> (write_pieces efs (record f { offset = f.offset + r.0 }) pieces r.1 >>= λ rest.
        some (r.0 + rest.0, rest.1, rest.2))

-- OSInode::read_all, on fuel.
pub read_all : ℕ → OsInode → Disk → Option (List ℕ × OsInode)
read_all zero f d = none
read_all (suc fuel) f d = read_file f.inode f.offset block_size d >>= λ r.
    (if r.0 == 0
      then some ([], f)
      else (read_all fuel (record f { offset = f.offset + r.0 }) d >>= λ rest.
          some (take r.0 r.1 ++ rest.0, rest.1)))

-- The table of a task; the files themselves are shared, so that an entry is a name of one.
module _ {A : Type 0} where
  pub find_free : List (Option A) → ℕ → Option ℕ
  find_free [] fd = none
  find_free (none ∷ files) fd = some fd
  find_free (some f ∷ files) fd = find_free files (fd + 1)

  pub alloc_fd : List (Option A) → ℕ × List (Option A)
  unfolding find_free
  alloc_fd table = elim (find_free table 0) [
    | some fd ↦ (fd, table)
    | none ↦ (length (table ++ (none ∷ [])) - 1, table ++ (none ∷ []))
  ]

  -- alloc_fd() and the assignment to the entry
  pub install : A → List (Option A) → ℕ × List (Option A)
  unfolding alloc_fd
  install f table = let (fd, table') = alloc_fd table in (fd, set table' fd (some f))

  -- The entry of a descriptor that is in range and open.
  pub get_file : ℕ → List (Option A) → Option A
  get_file fd table = get_elem? table fd >>= λ f. f

  -- sys_open, from the file that `open_file` returned
  pub sys_open : Option A → List (Option A) → Option (ℕ × List (Option A))
  unfolding install
  sys_open file table = file >>= λ f. some (install f table)

  pub sys_close : ℕ → List (Option A) → Option (List (Option A))
  unfolding get_file
  sys_close fd table = get_file fd table >>= λ f. some (set table fd none)

  -- sys_pipe: the ends of `make_pipe`
  pub sys_pipe : A → A → List (Option A) → ℕ × ℕ × List (Option A)
  unfolding install
  sys_pipe read_end write_end table =
      let (read_fd, table1) = install read_end table in
      let (write_fd, table2) = install write_end table1 in (read_fd, write_fd, table2)

  pub sys_dup : ℕ → List (Option A) → Option (ℕ × List (Option A))
  unfolding get_file install
  sys_dup fd table = get_file fd table >>= λ f. some (install f table)
