-- ===== src/Kernel/MapArea/Unmap.antt =====
-- `unmap` of a framed area of src/os/src/mm/memory_set.rs: its frames are given back.
use project_r_core.Common.{
  ℕ, zero, suc, ◌+◌, ◌-◌, ◌^◌, ◌≤◌, ◌<◌, ◌≡◌, refl, ◌≢◌, ◌⊎◌, inl, inr, ◌∙◌, ap, sym, arith, none,
  some, List, [], ◌∷◌, All, eq→==, ne→not-==, ℕ_discrete,
}
use project_r_core.Common.Bytes.{Bytes}
use project_r_core.Kernel.Address.{SimpleRange, floor}
use project_r_core.Kernel.Address.Range.{count_from}
use project_r_core.Kernel.Frames.{Machine, frame_dealloc}
use project_r_core.Kernel.Frames.Invariant.{IsUsed, free}
use project_r_core.Kernel.PageTable as PageTables
use project_r_core.Kernel.PageTable.{PageTable, PageTableEntry}
use project_r_core.Kernel.PageTable.Tree.{Place}
use project_r_core.Kernel.PageTable.Walk.{lookup}
use project_r_core.Kernel.PageTable.Descend.{IsSound, IsData}
use project_r_core.Kernel.PageTable.Unmap.{UnmapsPage, unmap-UnmapsPage}
use project_r_core.Kernel.MapArea.{MapArea, MapType, unmap_one, unmap_pages, unmap, remove}
use project_r_core.Kernel.MapArea.Held.{Held, Held-later, GivesBack, frame_dealloc-GivesBack}
use project_r_core.Kernel.MapArea.Map.{pages_lem}

-- What unmapping the pages l, l + 1, …, n of them, with the frames `fs` has made of the memory.
pub record Unmaps (start : ℕ) (place : ℕ → Place) (t : PageTable) (l n : ℕ) (fs : List (ℕ × ℕ))
    (m m' : Machine) : Type 0 where
  pub sound : IsSound start place t.root_ppn m'
  pub unmapped : (page : ℕ) → l ≤ page → page < l + n → lookup t page m'.mem ≡ none
  pub others :
      (page : ℕ)
      → page < 2 ^ 27
      → (page < l) ⊎ (l + n ≤ page)
      → lookup t page m'.mem ≡ lookup t page m.mem
  pub returned : All (λ x. ¬ IsUsed start m'.allocator x.1) fs
  pub kept :
      (r : ℕ) → All (λ x. x.1 ≢ r) fs → IsUsed start m.allocator r → IsUsed start m'.allocator r
  pub shrinks : (r : ℕ) → IsUsed start m'.allocator r → IsUsed start m.allocator r
  pub bytes :
      (at : ℕ)
      → All (λ x. x.1 ≢ floor at) fs
      → IsData start place m (floor at)
      → m'.mem at ≡ m.mem at
  pub gain : free m'.allocator ≡ free m.allocator + n

abbrev pub framed_area : SimpleRange → ℕ → List (ℕ × ℕ) → MapArea
framed_area range perm fs = record {
  vpn_range = range;
  data_frames = fs;
  map_type = MapType.framed;
  map_perm = perm;
}

module _ (start : ℕ) (place : ℕ → Place) (t : PageTable) (l n f : ℕ) (fs : List (ℕ × ℕ))
    (m m1 : Machine) (mem2 : Bytes) (m' : Machine) (d : IsData start place m f)
    (ne : All (λ x. x.1 ≢ f) fs) (hl : l + suc n ≤ 2 ^ 27)
    (g : GivesBack start place t.root_ppn f m m1) (same_mem : m1.mem ≡ m.mem)
    (u : UnmapsPage start place t l m1 mem2)
    (r : Unmaps start place t (l + 1) n fs (record m1 { mem = mem2 }) m') where
  maps_ne : (page : ℕ) → page < 2 ^ 27 → page ≢ l → lookup t page mem2 ≡ lookup t page m.mem
  maps_ne page hp off = u.maps page hp ∙ rw (ne→not-== page l off) (ap (lookup t page) same_mem)

  join-Unmaps : Unmaps start place t l (suc n) ((l, f) ∷ fs) m m'
  join-Unmaps = record {
    sound = r.sound;
    unmapped = λ page lo hi. elim (ℕ_discrete page l) [
      | yes e ↦
          r.others page (omega arith) (inl (omega arith))
          ∙ u.maps page (omega arith)
          ∙ rw (eq→== page l e) refl
      | no off ↦ r.unmapped page (omega arith) (omega arith)
    ];
    others = λ page hp out.
        r.others page hp
          (elim out [ inl below ↦ inl (omega arith) | inr above ↦ inr (omega arith) ])
        ∙ maps_ne page hp (omega arith);
    returned = (λ used. g.returned (r.shrinks f used), r.returned);
    kept = λ x apart used. r.kept x apart.1 (g.kept x (λ e. apart.0 (sym e)) used);
    shrinks = λ x used. g.shrinks x (r.shrinks x used);
    bytes = λ at apart data_at.
        let still : IsData start place m1 (floor at) =
          (g.kept (floor at) (λ e. apart.0 (sym e)) data_at.0, data_at.1) in
        r.bytes at apart.1 still ∙ u.keeps.bytes_kept at still ∙ ap (λ mem. mem at) same_mem;
    gain = omega (arith, r.gain, g.gain);
  }

unmap_head :
    (range : SimpleRange) (perm l f : ℕ) (fs : List (ℕ × ℕ)) (t : PageTable) (m m1 : Machine)
    (mem2 : Bytes)
    → frame_dealloc m f ≡ some m1
    → PageTables.unmap t l m1.mem ≡ some mem2
    → unmap_one (framed_area range perm ((l, f) ∷ fs)) t l m
      ≡ some (framed_area range perm fs, record m1 { mem = mem2 })
unfolding unmap_one remove
unmap_head range perm l f fs t m m1 mem2 e e' = rw (eq→== l l refl, e, e') refl

unmap_pages_lem :
    (start : ℕ) (place : ℕ → Place) (range : SimpleRange) (perm : ℕ) (t : PageTable) (n l : ℕ)
    (fs : List (ℕ × ℕ)) (m : Machine)
    → IsSound start place t.root_ppn m
    → l + n ≤ 2 ^ 27
    → Held start place t m l n fs
    → (m' : Machine) × (unmap_pages (count_from l n) (framed_area range perm fs) t m
        ≡ some (framed_area range perm [], m'))
      × Unmaps start place t l n fs m m'
unfolding unmap_pages
unmap_pages_lem start place range perm t zero l fs m s h held = rw held (
  m,
  refl,
  record {
    sound = s;
    unmapped = λ page lo hi. absurd (omega arith);
    others = λ page hp out. refl;
    returned = tt;
    kept = λ r apart used. used;
    shrinks = λ r used. used;
    bytes = λ at apart d. refl;
    gain = omega arith;
  },
)
unmap_pages_lem start place range perm t (suc n) l [] m s h held = absurd held
unmap_pages_lem start place range perm t (suc n) l ((page, f) ∷ fs) m s h (e, mapped, d, ne, rest) =
    let (a, returned, g) = frame_dealloc-GivesBack start place t.root_ppn f m s d in
    let m1 : Machine = record m { allocator = a } in
    elim (unmap-UnmapsPage start place t l m1 g.sound (omega arith)) [
      | inr (unmapped, failed) ↦ absurd (mapped unmapped)
      | inl (was_mapped, (mem2, e2, u)) ↦
          let m2 : Machine = record m1 { mem = mem2 } in
          let (m', done, r) =
            unmap_pages_lem start place range perm t n (l + 1) fs m2 u.sound (omega arith) (
              Held-later start place t m m2 f (l + 1) n fs
                (λ p lo hi. u.maps p (omega arith) ∙ rw (ne→not-== p l (omega arith)) refl)
                (λ x off d'. (g.kept x off d'.0, d'.1)) ne rest) in
          rw e (
            m',
            rw (unmap_head range perm l f fs t m m1 mem2 returned e2) done,
            join-Unmaps start place t l n f fs m m1 mem2 m' d ne (omega arith) g refl u r,
          )
    ]

-- `unmap` of a framed area whose pages are mapped to the frames that it holds gives them all back.
pub unmap-Unmaps :
    (start : ℕ) (place : ℕ → Place) (area : MapArea) (t : PageTable) (m : Machine)
    → IsSound start place t.root_ppn m
    → area.map_type ≡ MapType.framed
    → area.vpn_range.l ≤ area.vpn_range.r
    → area.vpn_range.r ≤ 2 ^ 27
    → Held start place t m area.vpn_range.l (area.vpn_range.r - area.vpn_range.l) area.data_frames
    → (m' : Machine) × (unmap area t m ≡ some (framed_area area.vpn_range area.map_perm [], m'))
      × Unmaps start place t area.vpn_range.l
          (area.vpn_range.r - area.vpn_range.l)
          area.data_frames
          m
          m'
unfolding unmap
unmap-Unmaps start place area t m s framed h k held =
    let l = area.vpn_range.l in
    let (m', done, u) =
      unmap_pages_lem start place area.vpn_range area.map_perm t (area.vpn_range.r - l) l
        area.data_frames m s (omega arith) held in
    let same : area ≡ framed_area area.vpn_range area.map_perm area.data_frames =
      ap
        (λ (type : MapType). record {
          vpn_range = area.vpn_range;
          data_frames = area.data_frames;
          map_type = type;
          map_perm = area.map_perm;
        })
        framed in
    (
      m',
      rw (pages_lem area.vpn_range h k) (
          ap (λ (a : MapArea). unmap_pages (count_from l (area.vpn_range.r - l)) a t m) same
          ∙ done),
      u,
    )
