-- ===== src/Kernel/MapArea/Map.antt =====
-- `map` of an area of src/os/src/mm/memory_set.rs.
use project_r_core.Common.{ℕ, ◌+◌, ◌-◌, ◌*◌, ◌^◌, ◌≤◌, ◌<◌, ◌≡◌, ap, arith, some, []}
use project_r_core.Kernel.Address.{SimpleRange}
use project_r_core.Kernel.Address.Range.{count_from, range_items}
use project_r_core.Kernel.Frames.{Machine}
use project_r_core.Kernel.Frames.Invariant.{free}
use project_r_core.Kernel.PageTable.{PageTable}
use project_r_core.Kernel.PageTable.Tree.{Place}
use project_r_core.Kernel.PageTable.Descend.{IsSound}
use project_r_core.Kernel.MapArea.{MapArea, map, pages}
use project_r_core.Kernel.MapArea.Frames.{find}
use project_r_core.Kernel.MapArea.Pages.{MapsOrFails, map_pages_lem}

pub pages_lem :
    (range : SimpleRange)
    → range.l ≤ range.r
    → range.r ≤ 2 ^ 27
    → pages range ≡ some (count_from range.l (range.r - range.l))
unfolding pages
pages_lem range h k = range_items range (range.r - range.l + 1) h (omega arith) (omega arith)

-- With three frames left for each page, `map` of an area that has no frames yet, where no page of the area
-- is mapped, maps every page of it with the flags of the area and leaves every other page as it was. An
-- identical area has the frames with the numbers of its pages. A framed area has a frame of its own for
-- each page, which was not in use before, is no table, and reads zero. Frames in use that are no tables keep
-- their bytes, and the tree of tables is sound again. If a page of the area is mapped, `map` is a panic.
pub map-MapsOrFails :
    (start : ℕ) (place : ℕ → Place) (area : MapArea) (t : PageTable) (m : Machine)
    → IsSound start place t.root_ppn m
    → area.data_frames ≡ []
    → area.vpn_range.l ≤ area.vpn_range.r
    → area.vpn_range.r ≤ 2 ^ 27
    → area.map_perm < 2 ^ 8
    → 3 * (area.vpn_range.r - area.vpn_range.l) ≤ free m.allocator
    → MapsOrFails start place area.vpn_range.l
        (area.vpn_range.r - area.vpn_range.l)
        area
        t
        m
        (map area t m)
unfolding map
map-MapsOrFails start place area t m s empty h k hf left =
    let l = area.vpn_range.l in
    rw (pages_lem area.vpn_range h k) (
      map_pages_lem start place (area.vpn_range.r - l) l area t m s (omega arith) hf left
        (λ page lo. ap (find page) empty))
