-- ===== src/Kernel/MemorySet.antt =====
-- src/os/src/mm/memory_set.rs: `MemorySet`, an address space: a page table and the areas that are mapped in
-- it. `none` is a panic. The addresses of the linker's symbols and the parser of ELF files, of the package
-- xmas_elf, are parameters.
pub mod Pages
pub mod Copyable
pub mod Area
pub mod Areas
pub mod Copy
pub mod Bare
pub mod Fork
pub mod Remove
mod Tests
use project_r_core.Common.{
  ℕ, ◌+◌, ◌-◌, ◌*◌, ◌%◌, ◌^◌, bit_or, Bool, true, false, Option, none, some, List, [], ◌∷◌, ◌++◌,
  ◌==◌, leb, length, take, drop, ◌&&◌, if◌then◌else◌, assert, ◌>>=◌, ◌>>◌,
}
use project_r_core.Common.Bytes.{Bytes}
use project_r_core.Kernel.Address.{
  VirtAddr, VirtPageNum, PhysPageNum, page_size, addr_of_page_num, page_num_of_addr, virt_addr_from,
  phys_addr_from, usize_of_virt_addr, floor,
}
use project_r_core.Kernel.Frames.{Machine, memory_end}
use project_r_core.Kernel.Pids.{trampoline}
use project_r_core.Kernel.PageTable as PageTables
use project_r_core.Kernel.PageTable.{PageTable, PageTableEntry, pte_ppn, translate, flag_r, flag_x}
use project_r_core.Kernel.MapArea as MapAreas
use project_r_core.Kernel.MapArea.{
  MapArea, MapType, perm_r, perm_w, perm_x, perm_u, pages, copy_data, drop_frames, from_another,
}

pub record MemorySet : Type 0 where
  pub page_table : PageTable
  pub areas : List MapArea

unfoldable pub new_bare : Machine → Option (MemorySet × Machine)
new_bare m = PageTables.new_table m >>= λ r. some (record { page_table = r.0; areas = [] }, r.1)

pub token : MemorySet → ℕ
token s = PageTables.token s.page_table

-- if let Some(data) = data
abbrev pub copy_in : Option (List ℕ) → MapArea → PageTable → Machine → Option Machine
copy_in none area t m = some m
copy_in (some bytes) area t m = copy_data area t bytes m

unfoldable pub push : MemorySet → MapArea → Option (List ℕ) → Machine → Option (MemorySet × Machine)
push s area bytes m = MapAreas.map area s.page_table m >>= λ r. copy_in bytes r.0 r.1 r.2 >>= λ m'.
    some (record { page_table = r.1; areas = s.areas ++ (r.0 ∷ []) }, m')

unfoldable pub insert_framed_area :
    MemorySet → VirtAddr → VirtAddr → ℕ → Machine → Option (MemorySet × Machine)
unfolding push
insert_framed_area s start_va end_va permission m =
    push s (MapAreas.new start_va end_va MapType.framed permission) none m

-- The first area that starts at the page, and the other areas in their order.
unfoldable pub find_area : VirtPageNum → List MapArea → Option (MapArea × List MapArea)
find_area start_vpn [] = none
find_area start_vpn (area ∷ areas) =
    let rest = find_area start_vpn areas in
    if area.vpn_range.l == start_vpn
    then some (area, areas)
    else (rest >>= λ r. some (r.0, area ∷ r.1))

-- The area that was found is unmapped, and dropped.
pub remove_found :
    MemorySet → Option (MapArea × List MapArea) → Machine → Option (MemorySet × Machine)
remove_found s none m = some (s, m)
remove_found s (some (area, rest)) m = MapAreas.unmap area s.page_table m >>= λ r.
    drop_frames r.0.data_frames r.1 >>= λ m'. some (record s { areas = rest }, m')

pub remove_area_with_start_vpn : MemorySet → VirtPageNum → Machine → Option (MemorySet × Machine)
unfolding find_area remove_found
remove_area_with_start_vpn s start_vpn m = remove_found s (find_area start_vpn s.areas) m

-- `strampoline` is the address of that symbol.
unfoldable pub map_trampoline : ℕ → MemorySet → Machine → Option (MemorySet × Machine)
map_trampoline strampoline s m = page_num_of_addr (virt_addr_from trampoline) >>= λ vpn.
    page_num_of_addr (phys_addr_from strampoline) >>= λ ppn.
    PageTables.map s.page_table vpn ppn (bit_or flag_r flag_x) m >>= λ r.
    some (record s { page_table = r.0 }, r.1)

-- The symbols of linker.ld.
pub record Symbols : Type 0 where
  pub stext : ℕ
  pub etext : ℕ
  pub srodata : ℕ
  pub erodata : ℕ
  pub sdata : ℕ
  pub edata : ℕ
  pub sbss_with_stack : ℕ
  pub ebss : ℕ
  pub ekernel : ℕ
  pub strampoline : ℕ

abbrev pub mmio : List (ℕ × ℕ)
mmio = (0x10001000, 0x1000) ∷ []

abbrev pub identical_area : ℕ → ℕ → ℕ → MapArea
identical_area start end perm =
    MapAreas.new (virt_addr_from start) (virt_addr_from end) MapType.identical perm

pub push_mmio : List (ℕ × ℕ) → MemorySet → Machine → Option (MemorySet × Machine)
push_mmio [] s m = some (s, m)
push_mmio ((start, size) ∷ rest) s m =
    push s (identical_area start ((start + size) % 2 ^ 64) (bit_or perm_r perm_w)) none m >>= λ r.
    push_mmio rest r.0 r.1

pub new_kernel : Symbols → Machine → Option (MemorySet × Machine)
unfolding push_mmio
new_kernel k m0 = do
  (s, m) ← new_bare m0
  (s, m) ← map_trampoline k.strampoline s m
  (s, m) ← push s (identical_area k.stext k.etext (bit_or perm_r perm_x)) none m
  (s, m) ← push s (identical_area k.srodata k.erodata perm_r) none m
  (s, m) ← push s (identical_area k.sdata k.edata (bit_or perm_r perm_w)) none m
  (s, m) ← push s (identical_area k.sbss_with_stack k.ebss (bit_or perm_r perm_w)) none m
  (s, m) ← push s (identical_area k.ekernel memory_end (bit_or perm_r perm_w)) none m
  push_mmio mmio s m

abbrev pub user_stack_size : ℕ
user_stack_size = 4096 * 2

abbrev pub trap_context : ℕ
trap_context = trampoline - page_size

-- What the kernel reads of a program header, and of an ELF file, by xmas_elf. `is_load` is `none` where
-- `get_type` fails, a program header where `program_header` does.
pub record ProgramHeader : Type 0 where
  pub is_load : Option Bool
  pub virtual_addr : ℕ
  pub mem_size : ℕ
  pub offset : ℕ
  pub file_size : ℕ
  pub is_read : Bool
  pub is_write : Bool
  pub is_execute : Bool

pub record ElfFile : Type 0 where
  pub magic : List ℕ
  pub program_headers : List (Option ProgramHeader)
  pub entry_point : ℕ

pub same_bytes : List ℕ → List ℕ → Bool
same_bytes [] [] = true
same_bytes (a ∷ xs) (b ∷ ys) = a == b && same_bytes xs ys
same_bytes [] (b ∷ ys) = false
same_bytes (a ∷ xs) [] = false

-- &elf.input[start..end]
pub input_slice : List ℕ → ℕ → ℕ → Option (List ℕ)
input_slice input start end =
    if leb start end && leb end (length input)
    then some (take (end - start) (drop start input))
    else none

abbrev pub permission : ProgramHeader → ℕ
permission ph =
    bit_or
      (bit_or (bit_or perm_u (if ph.is_read then perm_r else 0))
        (if ph.is_write then perm_w else 0))
      (if ph.is_execute then perm_x else 0)

-- One program header; `max_end_vpn` is the end of the last segment.
pub load_segment :
    List ℕ
    → ProgramHeader
    → VirtPageNum × MemorySet × Machine
    → Option (VirtPageNum × MemorySet × Machine)
unfolding input_slice
load_segment input ph (max_end_vpn, s, m) = elim ph.is_load [
  | none ↦ none
  | some false ↦ some (max_end_vpn, s, m)
  | some true ↦
      let area =
        MapAreas.new (virt_addr_from ph.virtual_addr)
          (virt_addr_from ((ph.virtual_addr + ph.mem_size) % 2 ^ 64)) MapType.framed
          (permission ph) in
      (input_slice input ph.offset ((ph.offset + ph.file_size) % 2 ^ 64) >>= λ bytes.
      push s area (some bytes) m >>= λ r. some (area.vpn_range.r, r.0, r.1))
]

pub load_segments :
    List ℕ
    → List (Option ProgramHeader)
    → VirtPageNum × MemorySet × Machine
    → Option (VirtPageNum × MemorySet × Machine)
unfolding load_segment
load_segments input [] loaded = some loaded
load_segments input (ph ∷ phs) loaded =
    ph >>= λ h. load_segment input h loaded >>= λ loaded'. load_segments input phs loaded'

-- `parse` is ElfFile::new. The stack starts one page above the last segment; the results are the space,
-- the top of the stack and the entry point.
pub from_elf :
    (List ℕ → Option ElfFile) → ℕ → List ℕ → Machine → Option (MemorySet × ℕ × ℕ × Machine)
unfolding same_bytes load_segments
from_elf parse strampoline elf_data m0 = do
  (s, m) ← new_bare m0
  (s, m) ← map_trampoline strampoline s m
  elf ← parse elf_data
  assert (same_bytes elf.magic (0x7f ∷ 0x45 ∷ 0x4c ∷ 0x46 ∷ []))
  (max_end_vpn, s, m) ← load_segments elf_data elf.program_headers (0, s, m)
  let user_stack_bottom = (usize_of_virt_addr (addr_of_page_num max_end_vpn) + page_size) % 2 ^ 64
  let user_stack_top = (user_stack_bottom + user_stack_size) % 2 ^ 64
  (s, m) ←
      push s
        (MapAreas.new (virt_addr_from user_stack_bottom) (virt_addr_from user_stack_top)
          MapType.framed (bit_or (bit_or perm_r perm_w) perm_u))
        none m
  (s, m) ←
      push s
        (MapAreas.new (virt_addr_from trap_context) (virt_addr_from trampoline) MapType.framed
          (bit_or perm_r perm_w))
        none m
  some (s, user_stack_top, elf.entry_point, m)

-- copy_from_slice of a whole frame.
unfoldable pub copy_frame : PhysPageNum → PhysPageNum → Bytes → Bytes
copy_frame dst src mem at =
    if floor at == dst then mem (addr_of_page_num src + at % page_size) else mem at

-- The pages of one area are copied from `user_space` to `s`.
unfoldable pub copy_pages : MemorySet → MemorySet → List VirtPageNum → Machine → Option Machine
unfolding copy_frame
copy_pages user_space s [] m = some m
copy_pages user_space s (vpn ∷ vpns) m = translate user_space.page_table vpn m.mem >>= λ src.
    translate s.page_table vpn m.mem >>= λ dst.
    copy_pages user_space s vpns (record m { mem = copy_frame (pte_ppn dst) (pte_ppn src) m.mem })

unfoldable pub copy_areas :
    MemorySet → List MapArea → MemorySet → Machine → Option (MemorySet × Machine)
unfolding push copy_pages
copy_areas user_space [] s m = some (s, m)
copy_areas user_space (area ∷ areas) s m = push s (from_another area) none m >>= λ r.
    pages area.vpn_range >>= λ vpns.
    copy_pages user_space r.0 vpns r.1 >>= λ m'. copy_areas user_space areas r.0 m'

unfoldable pub from_existed_user : ℕ → MemorySet → Machine → Option (MemorySet × Machine)
unfolding copy_areas
from_existed_user strampoline user_space m0 = do
  (s, m) ← new_bare m0
  (s, m) ← map_trampoline strampoline s m
  copy_areas user_space user_space.areas s m

pub translate_page : MemorySet → VirtPageNum → Bytes → Option PageTableEntry
translate_page s vpn mem = translate s.page_table vpn mem

-- areas.clear(): the trackers of every area are dropped; the page table keeps its entries.
pub release_frames : List MapArea → Machine → Option Machine
release_frames [] m = some m
release_frames (area ∷ areas) m = drop_frames area.data_frames m >>= λ m'. release_frames areas m'

pub release_areas : MemorySet → Machine → Option (MemorySet × Machine)
unfolding release_frames
release_areas s m = release_frames s.areas m >>= λ m'. some (record s { areas = [] }, m')
