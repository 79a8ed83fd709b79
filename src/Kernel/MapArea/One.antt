-- ===== src/Kernel/MapArea/One.antt =====
-- `map_one` of src/os/src/mm/memory_set.rs: one page of an area is mapped.
use project_r_core.Common.{
  ℕ, ◌+◌, ◌^◌, ◌≤◌, ◌<◌, ◌≡◌, refl, ◌≢◌, ◌⊎◌, inl, inr, ◌∙◌, sym, subst, arith, bit_or, Option,
  none, some, List, [], ◌∷◌, ◌++◌,
}
use project_r_core.Kernel.Address.{SimpleRange, floor}
use project_r_core.Kernel.Frames.{Machine}
use project_r_core.Kernel.Frames.Invariant.{IsUsed, free}
use project_r_core.Kernel.PageTable.{PageTable, pte_new, flag_v}
use project_r_core.Kernel.PageTable.Tree.{Place}
use project_r_core.Kernel.PageTable.Walk.{lookup}
use project_r_core.Kernel.PageTable.Descend.{IsSound, IsData, Keeps, Keeps-trans}
use project_r_core.Kernel.PageTable.Mapping.{Maps}
use project_r_core.Kernel.PageTable.Map.{map-MapsPage}
use project_r_core.Kernel.PageTable.Data.{frame_alloc-NewFrame}
use project_r_core.Kernel.MapArea.{MapArea, MapType, map_one, take_frame}
use project_r_core.Kernel.MapArea.Frames.{
  find, frame_of, insert_lem, find-append_ne, find-append_self,
}

-- What is behind a page that was mapped between `m` and `m'`: the frame of the same number, or a cleared
-- frame that nobody used before and that is no table.
abbrev pub Backs : ℕ → (ℕ → Place) → Machine → Machine → MapType → ℕ → ℕ → Type 0
Backs start place' m m' MapType.identical page ppn = ppn ≡ page
Backs start place' m m' MapType.framed page ppn =
    ¬ IsUsed start m.allocator ppn
    × IsData start place' m' ppn
    × ((at : ℕ) → floor at ≡ ppn → m'.mem at ≡ 0)

-- What `map_one` has made of an area, a table and the memory.
pub record MapsOne (start : ℕ) (place : ℕ → Place) (vpn : ℕ) (area : MapArea) (t : PageTable)
    (m : Machine) (area' : MapArea) (t' : PageTable) (m' : Machine) : Type 0 where
  pub ppn : ℕ
  pub place' : ℕ → Place
  pub sound : IsSound start place' t'.root_ppn m'
  pub maps : Maps t t' vpn (some (pte_new ppn (bit_or area.map_perm flag_v))) m.mem m'.mem
  pub keeps : Keeps start place place' m m'
  pub cost : free m.allocator ≤ free m'.allocator + 3
  pub backs : Backs start place' m m' area.map_type vpn ppn
  pub same_range : area'.vpn_range ≡ area.vpn_range
  pub same_type : area'.map_type ≡ area.map_type
  pub same_perm : area'.map_perm ≡ area.map_perm
  pub frame_self : frame_of area' vpn ≡ some ppn
  pub adds :
      area.map_type ≡ MapType.framed → area'.data_frames ≡ area.data_frames ++ ((vpn, ppn) ∷ [])
  pub find_ne : (page : ℕ) → vpn ≢ page → find page area'.data_frames ≡ find page area.data_frames

abbrev Outcome :
    ℕ
    → (ℕ → Place)
    → ℕ
    → MapArea
    → PageTable
    → Machine
    → Option (MapArea × PageTable × Machine)
    → Type 0
Outcome start place vpn area t m r =
    ((lookup t vpn m.mem ≡ none)
      × ((area' : MapArea) × (t' : PageTable) × (m' : Machine) × (r ≡ some (area', t', m'))
          × MapsOne start place vpn area t m area' t' m'))
    ⊎ ((lookup t vpn m.mem ≢ none) × (r ≡ none))

module _ (start : ℕ) (place : ℕ → Place) (range : SimpleRange) (frames : List (ℕ × ℕ)) (perm : ℕ)
    (t : PageTable) (vpn : ℕ) (m : Machine) (s : IsSound start place t.root_ppn m)
    (hv : vpn < 2 ^ 27) (hf : perm < 2 ^ 8) (left : 3 ≤ free m.allocator) where
  abbrev area_of : MapType → List (ℕ × ℕ) → MapArea
  area_of type fs = record { vpn_range = range; data_frames = fs; map_type = type; map_perm = perm }

  map_identical :
      Outcome start place vpn
        (area_of MapType.identical frames)
        t
        m
        (map_one (area_of MapType.identical frames) t vpn m)
  unfolding map_one take_frame frame_of
  map_identical =
      elim (map-MapsPage start place t vpn vpn perm m s hv (omega arith) hf (omega arith)) [
        | inr (mapped, failed) ↦ inr (mapped, rw failed refl)
        | inl (unmapped, (t', m', e, p)) ↦ inl (
          unmapped,
          (
            area_of MapType.identical frames,
            t',
            m',
            rw e refl,
            record {
              ppn = vpn;
              place' = p.place';
              sound = p.sound;
              maps = p.maps;
              keeps = p.keeps;
              cost = omega (arith, p.cost);
              backs = refl;
              same_range = refl;
              same_type = refl;
              same_perm = refl;
              frame_self = refl;
              adds = λ e. absurd (let type : MapType.identical ≡ MapType.framed = e in cc);
              find_ne = λ page ne. refl;
            },
          ),
        )
      ]

  map_framed :
      find vpn frames ≡ none
      → Outcome start place vpn
          (area_of MapType.framed frames)
          t
          m
          (map_one (area_of MapType.framed frames) t vpn m)
  unfolding map_one take_frame frame_of
  map_framed free_page =
      let (ppn, m1, got, n) = frame_alloc-NewFrame start place t.root_ppn m s (omega arith) in
      let same = n.same t vpn refl hv in
      let put = insert_lem vpn ppn frames m1 free_page in
      elim (map-MapsPage start place t vpn ppn perm m1 n.sound hv n.narrow hf
        (omega (arith, n.cost))) [
          | inr (mapped, failed) ↦ inr (λ e. mapped (same ∙ e), rw (got, put, failed) refl)
          | inl (unmapped, (t', m', e, p)) ↦ inl (
            sym same ∙ unmapped,
            (
              area_of MapType.framed (frames ++ ((vpn, ppn) ∷ [])),
              t',
              m',
              rw (got, put, e) refl,
              record {
                ppn = ppn;
                place' = p.place';
                sound = p.sound;
                maps = λ page hp. p.maps page hp ∙ rw (n.same t page refl hp) refl;
                keeps = Keeps-trans n.keeps p.keeps;
                cost = omega (arith, p.cost, n.cost);
                backs = (
                  n.unused,
                  p.keeps.data_kept ppn n.is_data,
                  λ at e.
                      p.keeps.bytes_kept at (subst (IsData start place m1) (sym e) n.is_data)
                      ∙ n.zeros at e,
                );
                same_range = refl;
                same_type = refl;
                same_perm = refl;
                frame_self = find-append_self vpn ppn frames free_page;
                adds = λ e. refl;
                find_ne = λ page ne. find-append_ne vpn ppn page frames ne;
              },
            ),
          )
        ]

  map_one_cases :
      (type : MapType)
      → find vpn frames ≡ none
      → Outcome start place vpn (area_of type frames) t m (map_one (area_of type frames) t vpn m)
  map_one_cases MapType.identical free_page = map_identical
  map_one_cases MapType.framed free_page = map_framed free_page

-- With three frames left, `map_one` of a page that is not mapped backs it with a frame; of one that is, it
-- fails.
pub map_one-MapsOne :
    (start : ℕ) (place : ℕ → Place) (area : MapArea) (t : PageTable) (vpn : ℕ) (m : Machine)
    → IsSound start place t.root_ppn m
    → vpn < 2 ^ 27
    → area.map_perm < 2 ^ 8
    → 3 ≤ free m.allocator
    → find vpn area.data_frames ≡ none
    → ((lookup t vpn m.mem ≡ none)
        × ((area' : MapArea) × (t' : PageTable) × (m' : Machine) × (map_one area t vpn m
              ≡ some (area', t', m'))
            × MapsOne start place vpn area t m area' t' m'))
      ⊎ ((lookup t vpn m.mem ≢ none) × (map_one area t vpn m ≡ none))
map_one-MapsOne start place area t vpn m s hv hf left free_page =
    map_one_cases start place area.vpn_range area.data_frames area.map_perm t vpn m s hv hf left
      area.map_type free_page
