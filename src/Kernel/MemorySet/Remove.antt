-- ===== src/Kernel/MemorySet/Remove.antt =====
-- `insert_framed_area` and `remove_area_with_start_vpn` of src/os/src/mm/memory_set.rs.
use project_r_core.Common.{
  ℕ, ◌+◌, ◌-◌, ◌*◌, ◌^◌, ◌≤◌, ◌<◌, ◌≡◌, refl, ◌≢◌, inl, inr, ◌∙◌, ap, sym, subst, arith, Option,
  none, some, List, [], ◌∷◌, ◌++◌, ◌>>=◌, All, ◌==◌, eq→==, Bool-cases, dec_lt,
}
use project_r_core.Kernel.Address.{floor, ceil}
use project_r_core.Kernel.Frames.{Machine}
use project_r_core.Kernel.Frames.Invariant.{IsUsed, free}
use project_r_core.Kernel.PageTable.{PageTable}
use project_r_core.Kernel.PageTable.Tree.{Place}
use project_r_core.Kernel.PageTable.Walk.{lookup}
use project_r_core.Kernel.PageTable.Descend.{IsSound, IsData}
use project_r_core.Kernel.MapArea as MapAreas
use project_r_core.Kernel.MapArea.{MapArea, MapType, drop_frames}
use project_r_core.Kernel.MapArea.Frames.{find, frame_of}
use project_r_core.Kernel.MapArea.One.{Backs}
use project_r_core.Kernel.MapArea.Pages.{MapsPages}
use project_r_core.Kernel.MapArea.Map.{map-MapsOrFails}
use project_r_core.Kernel.MapArea.Held.{Held, run-Held, run_apart}
use project_r_core.Kernel.MapArea.Unmap.{Unmaps, unmap-Unmaps}
use project_r_core.Kernel.MemorySet.{
  MemorySet, push, insert_framed_area, find_area, remove_found, remove_area_with_start_vpn,
}

abbrev behind : MapArea → MapArea × List MapArea → MapArea × List MapArea
behind b r = (r.0, b ∷ r.1)

find_before :
    (b : MapArea) (o : Option (MapArea × List MapArea))
    → (o >>= λ r. some (behind b r)) ≡ none
    → o ≡ none
find_before b none h = refl
find_before b (some r) h = absurd (ground arith)

find_last :
    (l : ℕ) (areas : List MapArea) (a : MapArea)
    → find_area l areas ≡ none
    → a.vpn_range.l ≡ l
    → find_area l (areas ++ (a ∷ [])) ≡ some (a, areas)
unfolding find_area
find_last l [] a h e = rw (eq→== a.vpn_range.l l e) refl
find_last l (b ∷ areas) a h e = elim (Bool-cases (b.vpn_range.l == l)) [
  | inl same ↦ absurd (ground arith)
  | inr other ↦ rw other (
      ap (λ o. o >>= λ r. some (behind b r))
        (find_last l areas a (find_before b (find_area l areas) (rw other at h)) e))
]

frame_of_framed :
    (area : MapArea) (page : ℕ)
    → area.map_type ≡ MapType.framed
    → frame_of area page ≡ find page area.data_frames
unfolding frame_of
frame_of_framed area page e = rw e refl

-- The frames of an area that was just mapped are held by it.
mapped-Held :
    (start : ℕ) (place : ℕ → Place) (l n : ℕ) (area : MapArea) (t : PageTable) (m : Machine)
    (area' : MapArea) (t' : PageTable) (m' : Machine)
    → area.map_type ≡ MapType.framed
    → area.data_frames ≡ []
    → (q : MapsPages start place l n area t m area' t' m')
    → Held start q.place' t' m' l n area'.data_frames
mapped-Held start place l n area t m area' t' m' framed empty q =
    let (fs, added, run) = q.adds framed in
    let same : area'.data_frames ≡ fs = added ∙ ap (λ xs. xs ++ fs) empty in
    let type : area'.map_type ≡ MapType.framed = q.same_type ∙ framed in
    let frames : (page : ℕ) → frame_of area' page ≡ find page area'.data_frames =
      λ page. frame_of_framed area' page type in
    run-Held start q.place' t' m' n l area'.data_frames (rw same run)
      (λ page lo hi.
        let (ppn, found, entry, back) = q.backed page lo hi in
        let (unused, d, zeros) : Backs start q.place' m m' MapType.framed page ppn =
          subst (λ type. Backs start q.place' m m' type page ppn) framed back in
        (ppn, sym (frames page) ∙ found, (λ missing. cc), d))
      (λ a b lo ab hi eq. q.apart a b lo ab hi (frames a ∙ eq ∙ sym (frames b)))

-- A space after an area was mapped and removed again: the pages and the bytes of data are as before, and no
-- more frames are gone than two for each page, which are tables.
pub record Restores (start : ℕ) (place : ℕ → Place) (n : ℕ) (s : MemorySet) (m : Machine)
    (s' : MemorySet) (m' : Machine) : Type 0 where
  pub place' : ℕ → Place
  pub sound : IsSound start place' s'.page_table.root_ppn m'
  pub same_areas : s'.areas ≡ s.areas
  pub same_pages :
      (page : ℕ) → page < 2 ^ 27 → lookup s'.page_table page m'.mem ≡ lookup s.page_table page m.mem
  pub same_bytes : (at : ℕ) → IsData start place m (floor at) → m'.mem at ≡ m.mem at
  pub cost : free m.allocator ≤ free m'.allocator + 2 * n

mapped_apart :
    (start : ℕ) (place : ℕ → Place) (l n r : ℕ) (area : MapArea) (t : PageTable) (m : Machine)
    (area' : MapArea) (t' : PageTable) (m' : Machine)
    → area.map_type ≡ MapType.framed
    → area.data_frames ≡ []
    → MapsPages start place l n area t m area' t' m'
    → IsUsed start m.allocator r
    → All (λ x. x.1 ≢ r) area'.data_frames
mapped_apart start place l n r area t m area' t' m' framed empty q used =
    let (fs, added, run) = q.adds framed in
    let same : area'.data_frames ≡ fs = added ∙ ap (λ xs. xs ++ fs) empty in
    run_apart r n l area'.data_frames (rw same run) (λ page lo hi found.
      let (ppn, has, entry, back) = q.backed page lo hi in
      let (unused, d, zeros) : Backs start q.place' m m' MapType.framed page ppn =
        subst (λ type. Backs start q.place' m m' type page ppn) framed back in
      let has' = frame_of_framed area' page (q.same_type ∙ framed) in
      let frame : ppn ≡ r = cc in unused (subst (IsUsed start m.allocator) (sym frame) used))

restores_lem :
    (start : ℕ) (place : ℕ → Place) (l r perm : ℕ) (s : MemorySet) (m : Machine) (area : MapArea)
    (area1 : MapArea) (t1 : PageTable) (m1 m2 : Machine)
    → l ≤ r
    → area.map_type ≡ MapType.framed
    → area.data_frames ≡ []
    → ((page : ℕ) → l ≤ page → page < r → lookup s.page_table page m.mem ≡ none)
    → (q : MapsPages start place l (r - l) area s.page_table m area1 t1 m1)
    → Unmaps start q.place' t1 l (r - l) area1.data_frames m1 m2
    → Restores start place (r - l) s m (record { page_table = t1; areas = s.areas }) m2
restores_lem start place l r perm s m area area1 t1 m1 m2 h framed empty unmapped q u = record {
  place' = q.place';
  sound = u.sound;
  same_areas = refl;
  same_pages = λ page hp. elim (dec_lt page l) [
    | yes below ↦ u.others page hp (inl below) ∙ q.others page hp (inl below)
    | no above ↦ elim (dec_lt page r) [
      | yes inside ↦
          u.unmapped page (omega arith) (omega arith) ∙ sym (unmapped page (omega arith) inside)
      | no behind ↦ u.others page hp (inr (omega arith)) ∙ q.others page hp (inr (omega arith))
    ]
  ];
  same_bytes = λ at d.
      u.bytes at
        (mapped_apart start place l (r - l) (floor at) area s.page_table m area1 t1 m1 framed empty
          q d.0)
        (q.keeps.data_kept _ d)
      ∙ q.keeps.bytes_kept at d;
  cost = omega (arith, q.cost, u.gain);
}

-- An area that is inserted and removed again leaves the pages of the space, its areas and the bytes of the
-- frames in use that are no tables as they were.
pub insert-Restores :
    (start : ℕ) (place : ℕ → Place) (s : MemorySet) (start_va end_va perm : ℕ) (m : Machine)
    → IsSound start place s.page_table.root_ppn m
    → floor start_va ≤ ceil end_va
    → ceil end_va ≤ 2 ^ 27
    → perm < 2 ^ 8
    → ((page : ℕ)
        → floor start_va ≤ page
        → page < ceil end_va
        → lookup s.page_table page m.mem ≡ none)
    → find_area (floor start_va) s.areas ≡ none
    → 3 * (ceil end_va - floor start_va) ≤ free m.allocator
    → (s1 : MemorySet) × (m1 : Machine) × (s2 : MemorySet) × (m2 : Machine) × (insert_framed_area s
          start_va end_va perm m
        ≡ some (s1, m1))
      × (remove_area_with_start_vpn s1 (floor start_va) m1 ≡ some (s2, m2))
      × Restores start place (ceil end_va - floor start_va) s m s2 m2
unfolding insert_framed_area push MapAreas.new remove_area_with_start_vpn remove_found drop_frames
insert-Restores start place s start_va end_va perm m sound h k hf unmapped no_area left =
    let l = floor start_va in
    let n = ceil end_va - floor start_va in
    let area : MapArea = MapAreas.new start_va end_va MapType.framed perm in
    elim (map-MapsOrFails start place area s.page_table m sound refl h k hf left) [
      | inr ((page, lo, hi, mapped), failed) ↦ absurd (mapped (unmapped page lo (omega arith)))
      | inl (free_pages, (area1, t1, m1, e, q)) ↦
          let held = mapped-Held start place l n area s.page_table m area1 t1 m1 refl refl q in
          let range = q.same_range in
          let (m2, done, u) =
            unmap-Unmaps start q.place' area1 t1 m1 q.sound q.same_type (rw range h) (rw range k)
              (rw range held) in
          let s1 : MemorySet = record { page_table = t1; areas = s.areas ++ (area1 ∷ []) } in
          (
            s1,
            m1,
            record { page_table = t1; areas = s.areas },
            m2,
            rw e refl,
            ap (λ o. remove_found s1 o m1) (find_last l s.areas area1 no_area (ap (λ r. r.l) range))
                ∙ rw done refl,
            restores_lem start place l (ceil end_va) perm s m area area1 t1 m1 m2 h refl refl
                unmapped q
                (subst (λ r. Unmaps start q.place' t1 r.l (r.r - r.l) area1.data_frames m1 m2) range
                  u),
          )
    ]
