-- ===== src/Kernel/MapArea.antt =====
-- src/os/src/mm/memory_set.rs: `MapArea`, a range of pages with what backs them. A `FrameTracker` is the
-- number of its frame, and its drop gives the frame back. `none` is a panic.
pub mod Frames
pub mod One
pub mod Pages
pub mod Map
pub mod Held
pub mod Unmap
pub mod Tests
use project_r_core.Common.{
  ℕ, zero, suc, ◌+◌, ◌-◌, ◌*◌, ◌/◌, ◌^◌, Bool, true, false, Option, none, some, List, [], ◌∷◌, ◌==◌,
  leb, ltb, length, take, drop, if◌then◌else◌, assert, ◌>>=◌, ◌>>◌,
}
use project_r_core.Common.Bytes.{Bytes, update}
use project_r_core.Kernel.Address.{
  VirtAddr, VirtPageNum, PhysPageNum, SimpleRange, into_iter, items, step, floor, ceil, page_size,
  addr_of_page_num,
}
use project_r_core.Kernel.Frames.{Machine, frame_alloc, frame_dealloc}
use project_r_core.Kernel.PageTable as PageTables
use project_r_core.Kernel.PageTable.{PageTable, pte_ppn, translate}

pub data MapType : Type 0 where
  identical framed : MapType

-- MapPermission
abbrev pub perm_r : ℕ
perm_r = 2

abbrev pub perm_w : ℕ
perm_w = 4

abbrev pub perm_x : ℕ
perm_x = 8

abbrev pub perm_u : ℕ
perm_u = 16

-- `data_frames` maps pages to frames.
pub record MapArea : Type 0 where
  pub vpn_range : SimpleRange
  pub data_frames : List (VirtPageNum × PhysPageNum)
  pub map_type : MapType
  pub map_perm : ℕ

unfoldable pub new : VirtAddr → VirtAddr → MapType → ℕ → MapArea
new start_va end_va map_type map_perm = record {
  vpn_range = record { l = floor start_va; r = ceil end_va };
  data_frames = [];
  map_type = map_type;
  map_perm = map_perm;
}

unfoldable pub from_another : MapArea → MapArea
from_another area = record area { data_frames = [] }

-- The pages that a loop over the range visits: `none` if its start is behind its end. Such a loop goes on
-- until a page is mapped, or not mapped, against its wish, or no frame is left, each of which is a panic.
unfoldable pub pages : SimpleRange → Option (List VirtPageNum)
pages range = items (range.r - range.l + 1) (into_iter range)

-- data_frames.insert: the tracker that was there is dropped.
unfoldable pub insert :
    VirtPageNum
    → PhysPageNum
    → List (VirtPageNum × PhysPageNum)
    → Machine
    → Option (List (VirtPageNum × PhysPageNum) × Machine)
insert vpn ppn [] m = some ((vpn, ppn) ∷ [], m)
insert vpn ppn ((page, frame) ∷ rest) m =
    let below = insert vpn ppn rest m in
    if page == vpn
    then (frame_dealloc m frame >>= λ m'. some ((vpn, ppn) ∷ rest, m'))
    else (below >>= λ r. some ((page, frame) ∷ r.0, r.1))

-- data_frames.remove, with the drop of the tracker.
unfoldable pub remove :
    VirtPageNum
    → List (VirtPageNum × PhysPageNum)
    → Machine
    → Option (List (VirtPageNum × PhysPageNum) × Machine)
remove vpn [] m = some ([], m)
remove vpn ((page, frame) ∷ rest) m =
    let below = remove vpn rest m in
    if page == vpn
    then (frame_dealloc m frame >>= λ m'. some (rest, m'))
    else (below >>= λ r. some ((page, frame) ∷ r.0, r.1))

-- The frame of a page of the area.
unfoldable pub take_frame :
    MapArea → VirtPageNum → Machine → Option (PhysPageNum × MapArea × Machine)
unfolding insert
take_frame area vpn m = elim area.map_type [
  | MapType.identical ↦ some (vpn, area, m)
  | MapType.framed ↦
      let (got, m') = frame_alloc m in
      (got >>= λ ppn. insert vpn ppn area.data_frames m' >>= λ r.
      some (ppn, record area { data_frames = r.0 }, r.1))
]

unfoldable pub map_one :
    MapArea → PageTable → VirtPageNum → Machine → Option (MapArea × PageTable × Machine)
unfolding take_frame
map_one area t vpn m = take_frame area vpn m >>= λ r.
    PageTables.map t vpn r.0 area.map_perm r.2 >>= λ r'. some (r.1, r'.0, r'.1)

unfoldable pub unmap_one : MapArea → PageTable → VirtPageNum → Machine → Option (MapArea × Machine)
unfolding remove
unmap_one area t vpn m = elim area.map_type [
  | MapType.identical ↦ PageTables.unmap t vpn m.mem >>= λ mem. some (area, record m { mem = mem })
  | MapType.framed ↦ remove vpn area.data_frames m >>= λ r.
      PageTables.unmap t vpn r.1.mem >>= λ mem.
      some (record area { data_frames = r.0 }, record r.1 { mem = mem })
]

unfoldable pub map_pages :
    List VirtPageNum → MapArea → PageTable → Machine → Option (MapArea × PageTable × Machine)
unfolding map_one
map_pages [] area t m = some (area, t, m)
map_pages (vpn ∷ vpns) area t m = map_one area t vpn m >>= λ r. map_pages vpns r.0 r.1 r.2

unfoldable pub unmap_pages :
    List VirtPageNum → MapArea → PageTable → Machine → Option (MapArea × Machine)
unfolding unmap_one
unmap_pages [] area t m = some (area, m)
unmap_pages (vpn ∷ vpns) area t m = unmap_one area t vpn m >>= λ r. unmap_pages vpns r.0 t r.1

unfoldable pub map : MapArea → PageTable → Machine → Option (MapArea × PageTable × Machine)
unfolding pages map_pages
map area t m = pages area.vpn_range >>= λ vpns. map_pages vpns area t m

unfoldable pub unmap : MapArea → PageTable → Machine → Option (MapArea × Machine)
unfolding pages unmap_pages
unmap area t m = pages area.vpn_range >>= λ vpns. unmap_pages vpns area t m

-- copy_from_slice, to an address.
unfoldable pub write_bytes : ℕ → List ℕ → Bytes → Bytes
write_bytes at [] mem = mem
write_bytes at (b ∷ bs) mem = write_bytes (at + 1) bs (update mem at b)

-- The rounds of `copy_data`; `bytes` is what is left from `start` on.
unfoldable pub copy_loop : ℕ → PageTable → VirtPageNum → List ℕ → Bytes → Option Bytes
unfolding write_bytes
copy_loop zero t vpn bytes mem = none
copy_loop (suc fuel) t vpn bytes mem = elim (translate t vpn mem) [
  | none ↦ none
  | some pte ↦
      let mem' = write_bytes (addr_of_page_num (pte_ppn pte)) (take page_size bytes) mem in
      elim (leb (length bytes) page_size) [
        | true ↦ some mem'
        | false ↦ copy_loop fuel t (step vpn) (drop page_size bytes) mem'
      ]
]

abbrev pub is_framed : MapType → Bool
is_framed MapType.framed = true
is_framed MapType.identical = false

unfoldable pub copy_data : MapArea → PageTable → List ℕ → Machine → Option Machine
unfolding copy_loop
copy_data area t bytes m =
    assert (is_framed area.map_type)
    >> (copy_loop (length bytes / page_size + 1) t area.vpn_range.l bytes m.mem >>= λ mem.
        some (record m { mem = mem }))

-- The drop of an area: its trackers are dropped.
unfoldable pub drop_frames : List (VirtPageNum × PhysPageNum) → Machine → Option Machine
drop_frames [] m = some m
drop_frames ((page, frame) ∷ rest) m = frame_dealloc m frame >>= λ m'. drop_frames rest m'
