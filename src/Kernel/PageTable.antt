-- ===== src/Kernel/PageTable.antt =====
-- src/os/src/mm/page_table.rs: page table entries, and the three-level tables of Sv39 in physical memory.
-- `&mut PageTableEntry` is the address of the entry. A `unwrap` of `None` and a failed assertion are
-- `none`. A `FrameTracker` in `frames` is the number of its frame.
pub mod Entry
pub mod Tree
pub mod Walk
pub mod Descend
pub mod Create
pub mod Mapping
pub mod Map
pub mod Unmap
pub mod Data
pub mod Fresh
pub mod Tests
use project_r_core.Common.{
  ℕ, zero, suc, ◌+◌, ◌-◌, ◌*◌, ◌/◌, ◌%◌, ◌^◌, bit_and, bit_or, Bool, true, false, not, Option, none,
  some, List, [], ◌∷◌, ◌++◌, ◌==◌, if◌then◌else◌, assert, ◌>>=◌, ◌>>◌,
}
use project_r_core.Common.Bytes.{Bytes, le_read, le_write}
use project_r_core.Kernel.Address.{
  PhysPageNum, VirtPageNum, VirtAddr, PhysAddr, phys_page_num_from, phys_addr_from,
  addr_of_page_num, floor, page_offset, Indexes, indexes,
}
use project_r_core.Kernel.Frames.{Machine, frame_alloc}

abbrev pub ppn_offset : ℕ
ppn_offset = 10

abbrev pub reverse_offset : ℕ
reverse_offset = 54

-- PTEFlags
abbrev pub flag_v : ℕ
flag_v = 1

abbrev pub flag_r : ℕ
flag_r = 2

abbrev pub flag_w : ℕ
flag_w = 4

abbrev pub flag_x : ℕ
flag_x = 8

abbrev pub flag_u : ℕ
flag_u = 16

-- PageTableEntry: the 64 bits.
abbrev pub PageTableEntry : Type 0
PageTableEntry = ℕ

unfoldable pub pte_new : PhysPageNum → ℕ → PageTableEntry
pte_new ppn flags = bit_or (ppn * 2 ^ ppn_offset % 2 ^ 64) flags

abbrev pub pte_empty : PageTableEntry
pte_empty = 0

unfoldable pub pte_ppn : PageTableEntry → PhysPageNum
pte_ppn bits =
    phys_page_num_from (bit_and (bits / 2 ^ ppn_offset) (2 ^ (reverse_offset - ppn_offset) - 1))

-- All eight bits are flags, so `from_bits` does not fail.
unfoldable pub pte_flags : PageTableEntry → ℕ
pte_flags bits = bits % 2 ^ 8

unfoldable pub has_flag : PageTableEntry → ℕ → Bool
has_flag bits flag = not (bit_and (pte_flags bits) flag == 0)

unfoldable pub is_valid : PageTableEntry → Bool
unfolding has_flag pte_flags
is_valid bits = has_flag bits flag_v

pub readable : PageTableEntry → Bool
unfolding has_flag pte_flags
readable bits = has_flag bits flag_r

pub writable : PageTableEntry → Bool
unfolding has_flag pte_flags
writable bits = has_flag bits flag_w

pub executable : PageTableEntry → Bool
unfolding has_flag pte_flags
executable bits = has_flag bits flag_x

-- &mut ppn.get_pte_array()[idx]
unfoldable pub pte_addr : PhysPageNum → ℕ → ℕ
pte_addr ppn idx = addr_of_page_num ppn + 8 * idx

unfoldable pub read_pte : Bytes → ℕ → PageTableEntry
read_pte mem at = le_read 8 mem at

unfoldable pub write_pte : Bytes → ℕ → PageTableEntry → Bytes
write_pte mem at pte = le_write 8 mem at pte

pub record PageTable : Type 0 where
  pub root_ppn : PhysPageNum
  pub frames : List PhysPageNum

-- PageTable::new
pub new_table : Machine → Option (PageTable × Machine)
new_table m =
    let (got, m') = frame_alloc m in
    do ppn ← got; some (record { root_ppn = ppn; frames = ppn ∷ [] }, m')

pub from_token : ℕ → PageTable
from_token satp = record { root_ppn = phys_page_num_from satp; frames = [] }

pub token : PageTable → ℕ
token t = bit_or (8 * 2 ^ 60) t.root_ppn

abbrev pub levels : VirtPageNum → List ℕ
levels vpn = let i = indexes vpn in i.idx0 ∷ i.idx1 ∷ i.idx2 ∷ []

-- The loop of `find_pte` from a table on: the last level is returned whether it is valid or not.
pub walk : Bytes → List ℕ → PhysPageNum → Option ℕ
walk mem [] ppn = none
walk mem (idx ∷ []) ppn = some (pte_addr ppn idx)
walk mem (idx ∷ idx' ∷ rest) ppn =
    let at = pte_addr ppn idx in
    let below = walk mem (idx' ∷ rest) (pte_ppn (read_pte mem at)) in
    if is_valid (read_pte mem at) then below else none

pub find_pte : Bytes → PageTable → VirtPageNum → Option ℕ
unfolding walk
find_pte mem t vpn = walk mem (levels vpn) t.root_ppn

-- The entry is set to the new frame, which the table keeps.
link :
    ℕ
    → List PhysPageNum
    → Option PhysPageNum × Machine
    → Option (PhysPageNum × List PhysPageNum × Machine)
link at frames (none, m) = none
link at frames (some ppn, m) =
    let mem' = write_pte m.mem at (pte_new ppn flag_v) in
    some (pte_ppn (read_pte mem' at), frames ++ (ppn ∷ []), record m { mem = mem' })

-- The table that an entry leads to, made if the entry is not valid.
pub descend : ℕ → List PhysPageNum → Machine → Option (PhysPageNum × List PhysPageNum × Machine)
unfolding link
descend at frames m =
    if is_valid (read_pte m.mem at)
    then some (pte_ppn (read_pte m.mem at), frames, m)
    else link at frames (frame_alloc m)

pub walk_create :
    List ℕ → PhysPageNum → List PhysPageNum → Machine → Option (ℕ × List PhysPageNum × Machine)
walk_create [] ppn frames m = none
walk_create (idx ∷ []) ppn frames m = some (pte_addr ppn idx, frames, m)
walk_create (idx ∷ idx' ∷ rest) ppn frames m =
    descend (pte_addr ppn idx) frames m >>= λ d. walk_create (idx' ∷ rest) d.0 d.1 d.2

pub find_pte_create : PageTable → VirtPageNum → Machine → Option (ℕ × PageTable × Machine)
unfolding walk_create
find_pte_create t vpn m = walk_create (levels vpn) t.root_ppn t.frames m >>= λ r.
    some (r.0, record t { frames = r.1 }, r.2)

pub map : PageTable → VirtPageNum → PhysPageNum → ℕ → Machine → Option (PageTable × Machine)
map t vpn ppn flags m = find_pte_create t vpn m >>= λ r.
    assert (not (is_valid (read_pte r.2.mem r.0)))
    >> some (r.1, record r.2 { mem = write_pte r.2.mem r.0 (pte_new ppn (bit_or flags flag_v)) })

pub unmap : PageTable → VirtPageNum → Bytes → Option Bytes
unmap t vpn mem = do
  at ← find_pte mem t vpn
  assert (is_valid (read_pte mem at))
  some (write_pte mem at pte_empty)

pub translate : PageTable → VirtPageNum → Bytes → Option PageTableEntry
translate t vpn mem = do at ← find_pte mem t vpn; some (read_pte mem at)

pub translate_va : PageTable → VirtAddr → Bytes → Option PhysAddr
translate_va t va mem = do
  at ← find_pte mem t (floor va)
  let start = addr_of_page_num (pte_ppn (read_pte mem at))
  some (phys_addr_from (start + page_offset va))
