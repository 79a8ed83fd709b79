-- ===== src/Kernel/MapArea/Frames.antt =====
-- The frames of an area of src/os/src/mm/memory_set.rs, by page.
use project_r_core.Common.{
  ℕ, ◌≡◌, refl, ◌≢◌, ◌∙◌, ap, arith, inl, inr, Option, none, some, List, [], ◌∷◌, ◌++◌, ◌==◌,
  if◌then◌else◌, Bool-cases, eq→==, ne→not-==,
}
use project_r_core.Kernel.Frames.{Machine}
use project_r_core.Kernel.MapArea.{MapArea, MapType, insert}

abbrev pub find : ℕ → List (ℕ × ℕ) → Option ℕ
find vpn [] = none
find vpn ((page, frame) ∷ rest) = if page == vpn then some frame else find vpn rest

-- The frame behind a page of the area.
abbrev frame_by : MapType → List (ℕ × ℕ) → ℕ → Option ℕ
frame_by MapType.identical frames page = some page
frame_by MapType.framed frames page = find page frames

unfoldable pub frame_of : MapArea → ℕ → Option ℕ
frame_of area page = frame_by area.map_type area.data_frames page

frame_by_ext :
    (type : MapType) (frames frames' : List (ℕ × ℕ)) (page : ℕ)
    → find page frames' ≡ find page frames
    → frame_by type frames' page ≡ frame_by type frames page
frame_by_ext MapType.identical frames frames' page e = refl
frame_by_ext MapType.framed frames frames' page e = e

pub frame_of_ext :
    (area area' : MapArea) (page : ℕ)
    → area'.map_type ≡ area.map_type
    → find page area'.data_frames ≡ find page area.data_frames
    → frame_of area' page ≡ frame_of area page
unfolding frame_of
frame_of_ext area area' page same e =
    ap (λ type. frame_by type area'.data_frames page) same
    ∙ frame_by_ext area.map_type area.data_frames area'.data_frames page e

pub insert_lem :
    (vpn ppn : ℕ) (xs : List (ℕ × ℕ)) (m : Machine)
    → find vpn xs ≡ none
    → insert vpn ppn xs m ≡ some (xs ++ ((vpn, ppn) ∷ []), m)
unfolding insert
insert_lem vpn ppn [] m h = refl
insert_lem vpn ppn ((page, frame) ∷ xs) m h = elim (Bool-cases (page == vpn)) [
  | inl same ↦ absurd (ground arith)
  | inr other ↦ rw (other, insert_lem vpn ppn xs m (rw other at h)) refl
]

pub find-append_ne :
    (vpn ppn page : ℕ) (xs : List (ℕ × ℕ))
    → vpn ≢ page
    → find page (xs ++ ((vpn, ppn) ∷ [])) ≡ find page xs
find-append_ne vpn ppn page [] ne = rw (ne→not-== vpn page ne) refl
find-append_ne vpn ppn page ((p, f) ∷ xs) ne = rw (find-append_ne vpn ppn page xs ne) refl

pub find-append_self :
    (vpn ppn : ℕ) (xs : List (ℕ × ℕ))
    → find vpn xs ≡ none
    → find vpn (xs ++ ((vpn, ppn) ∷ [])) ≡ some ppn
find-append_self vpn ppn [] h = rw (eq→== vpn vpn refl) refl
find-append_self vpn ppn ((p, f) ∷ xs) h = elim (Bool-cases (p == vpn)) [
  | inl same ↦ absurd (ground arith)
  | inr other ↦ rw other (find-append_self vpn ppn xs (rw other at h))
]
