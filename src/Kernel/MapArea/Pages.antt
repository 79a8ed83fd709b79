-- ===== src/Kernel/MapArea/Pages.antt =====
-- `map` of an area of src/os/src/mm/memory_set.rs, over all of its pages.
use project_r_core.Common.{
  append_assoc, append-nil, ◌++◌, List, [], ◌∷◌, ℕ, zero, suc, ◌+◌, ◌*◌, ◌^◌, ◌≤◌, ◌<◌, ◌≡◌, refl,
  ◌≢◌, ◌⊎◌, inl, inr, ◌∙◌, ap, sym, subst, arith, bit_or, Option, none, some, ℕ_discrete, eq→==,
  ne→not-==,
}
use project_r_core.Kernel.Address.Range.{count_from}
use project_r_core.Kernel.Frames.{Machine}
use project_r_core.Kernel.Frames.Invariant.{IsUsed, free}
use project_r_core.Kernel.PageTable.{PageTable, PageTableEntry, pte_new, flag_v}
use project_r_core.Kernel.PageTable.Tree.{Place}
use project_r_core.Kernel.PageTable.Walk.{lookup}
use project_r_core.Kernel.PageTable.Descend.{IsSound, IsData, Keeps, Keeps-trans}
use project_r_core.Kernel.PageTable.Mapping.{Maps}
use project_r_core.Kernel.MapArea.{MapArea, MapType, map_pages}
use project_r_core.Kernel.MapArea.Frames.{find, frame_of, frame_of_ext}
use project_r_core.Kernel.MapArea.One.{Backs, MapsOne, map_one-MapsOne}

-- The entry of a page behind which `ppn` is.
abbrev pub entry_of : MapArea → ℕ → PageTableEntry
entry_of area ppn = pte_new ppn (bit_or area.map_perm flag_v)

-- The pages of a list of frames are l, l + 1, …, n of them.
abbrev pub IsRun : ℕ → ℕ → List (ℕ × ℕ) → Type 0
IsRun l zero fs = fs ≡ []
IsRun l (suc n) [] = ⊥
IsRun l (suc n) ((page, frame) ∷ fs) = (page ≡ l) × IsRun (l + 1) n fs

-- What mapping the pages l, l + 1, …, n of them, has made of an area, a table and the memory.
pub record MapsPages (start : ℕ) (place : ℕ → Place) (l n : ℕ) (area : MapArea) (t : PageTable)
    (m : Machine) (area' : MapArea) (t' : PageTable) (m' : Machine) : Type 0 where
  pub place' : ℕ → Place
  pub sound : IsSound start place' t'.root_ppn m'
  pub keeps : Keeps start place place' m m'
  pub cost : free m.allocator ≤ free m'.allocator + 3 * n
  pub same_range : area'.vpn_range ≡ area.vpn_range
  pub same_type : area'.map_type ≡ area.map_type
  pub same_perm : area'.map_perm ≡ area.map_perm
  pub adds :
      area.map_type ≡ MapType.framed
      → (fs : List (ℕ × ℕ)) × (area'.data_frames ≡ area.data_frames ++ fs) × IsRun l n fs
  pub find_others :
      (page : ℕ)
      → (page < l) ⊎ (l + n ≤ page)
      → find page area'.data_frames ≡ find page area.data_frames
  pub others :
      (page : ℕ)
      → page < 2 ^ 27
      → (page < l) ⊎ (l + n ≤ page)
      → lookup t' page m'.mem ≡ lookup t page m.mem
  pub backed :
      (page : ℕ)
      → l ≤ page
      → page < l + n
      → (ppn : ℕ) × (frame_of area' page ≡ some ppn)
        × (lookup t' page m'.mem ≡ some (entry_of area ppn))
        × Backs start place' m m' area.map_type page ppn
  pub apart : (a b : ℕ) → l ≤ a → a < b → b < l + n → frame_of area' a ≢ frame_of area' b

abbrev pub MapsOrFails :
    ℕ
    → (ℕ → Place)
    → ℕ
    → ℕ
    → MapArea
    → PageTable
    → Machine
    → Option (MapArea × PageTable × Machine)
    → Type 0
MapsOrFails start place l n area t m r =
    (((page : ℕ) → l ≤ page → page < l + n → lookup t page m.mem ≡ none)
      × ((area' : MapArea) × (t' : PageTable) × (m' : Machine) × (r ≡ some (area', t', m'))
          × MapsPages start place l n area t m area' t' m'))
    ⊎ (((page : ℕ) × (l ≤ page) × (page < l + n) × (lookup t page m.mem ≢ none)) × (r ≡ none))

Maps-ne :
    (t t' : PageTable) (vpn page : ℕ) (e : Option PageTableEntry) (m m' : Machine)
    → Maps t t' vpn e m.mem m'.mem
    → page < 2 ^ 27
    → page ≢ vpn
    → lookup t' page m'.mem ≡ lookup t page m.mem
Maps-ne t t' vpn page e m m' maps hp ne = maps page hp ∙ rw (ne→not-== page vpn ne) refl

-- What is behind a page stays so afterwards.
later-Backs :
    (start : ℕ) (place1 place' : ℕ → Place) (m m1 m' : Machine) (type : MapType) (page ppn : ℕ)
    → Backs start place1 m m1 type page ppn
    → Keeps start place1 place' m1 m'
    → Backs start place' m m' type page ppn
later-Backs start place1 place' m m1 m' MapType.identical page ppn e k = e
later-Backs start place1 place' m m1 m' MapType.framed page ppn (unused, d, zeros) k = (
  unused,
  k.data_kept ppn d,
  λ at e. k.bytes_kept at (subst (IsData start place1 m1) (sym e) d) ∙ zeros at e,
)

-- What was unused in between was unused before.
earlier-Backs :
    (start : ℕ) (place place1 place' : ℕ → Place) (m m1 m' : Machine) (type : MapType)
    (page ppn : ℕ)
    → Keeps start place place1 m m1
    → Backs start place' m1 m' type page ppn
    → Backs start place' m m' type page ppn
earlier-Backs start place place1 place' m m1 m' MapType.identical page ppn k e = e
earlier-Backs start place place1 place' m m1 m' MapType.framed page ppn k (unused, d, zeros) =
    (λ u. unused (k.used_kept ppn u), d, zeros)

-- Frames of two steps differ.
Backs-ne :
    (start : ℕ) (place1 place' : ℕ → Place) (m m1 m' : Machine) (type : MapType) (a b p q : ℕ)
    → a < b
    → Backs start place1 m m1 type a p
    → Backs start place' m1 m' type b q
    → p ≢ q
Backs-ne start place1 place' m m1 m' MapType.identical a b p q h e e' same = omega arith
Backs-ne start place1 place' m m1 m' MapType.framed a b p q h (u, d, z) (u', d', z') same =
    u' (subst (IsUsed start m1.allocator) same d.0)

module _ (start : ℕ) (place : ℕ → Place) (l n : ℕ) (area : MapArea) (t : PageTable) (m : Machine)
    (area1 : MapArea) (t1 : PageTable) (m1 : Machine)
    (o : MapsOne start place l area t m area1 t1 m1) (area' : MapArea) (t' : PageTable)
    (m' : Machine) (q : MapsPages start o.place' (l + 1) n area1 t1 m1 area' t' m')
    (hl : l < 2 ^ 27) where
  first_frame : frame_of area' l ≡ some o.ppn
  first_frame =
      frame_of_ext area1 area' l q.same_type (q.find_others l (inl (omega arith))) ∙ o.frame_self

  first_lookup : lookup t' l m'.mem ≡ some (entry_of area o.ppn)
  first_lookup = q.others l hl (inl (omega arith)) ∙ o.maps l hl ∙ rw (eq→== l l refl) refl

  both : MapsPages start place l (suc n) area t m area' t' m'
  both = record {
    place' = q.place';
    sound = q.sound;
    keeps = Keeps-trans o.keeps q.keeps;
    cost = omega (arith, o.cost, q.cost);
    same_range = q.same_range ∙ o.same_range;
    same_type = q.same_type ∙ o.same_type;
    same_perm = q.same_perm ∙ o.same_perm;
    adds = λ e.
        let (fs, more, run) = q.adds (o.same_type ∙ e) in
        (
          (l, o.ppn) ∷ fs,
          more ∙ ap (λ frames. frames ++ fs) (o.adds e) ∙ append_assoc area.data_frames _ fs,
          (refl, run),
        );
    find_others = λ page out.
        q.find_others page
          (elim out [ inl below ↦ inl (omega arith) | inr above ↦ inr (omega arith) ])
        ∙ o.find_ne page (omega arith);
    others = λ page hp out.
        q.others page hp
          (elim out [ inl below ↦ inl (omega arith) | inr above ↦ inr (omega arith) ])
        ∙ Maps-ne t t1 l page _ m m1 o.maps hp (omega arith);
    backed = λ page lo hi. elim (ℕ_discrete page l) [
      | yes e ↦ (
        o.ppn,
        rw e first_frame,
        rw e first_lookup,
        rw e (later-Backs start o.place' q.place' m m1 m' area.map_type l o.ppn o.backs q.keeps),
      )
      | no ne ↦
          let (ppn, framed, found, b) = q.backed page (omega arith) (omega arith) in
          (
            ppn,
            framed,
            found ∙ ap (λ perm. some (pte_new ppn (bit_or perm flag_v))) o.same_perm,
            earlier-Backs start place o.place' q.place' m m1 m' area.map_type page ppn o.keeps
                (subst (λ type. Backs start q.place' m1 m' type page ppn) o.same_type b),
          )
    ];
    apart = λ a b lo ab hi. elim (ℕ_discrete a l) [
      | no ne ↦ q.apart a b (omega arith) ab (omega arith)
      | yes e ↦ λ same.
          let (ppn, framed, found, back) = q.backed b (omega arith) (omega arith) in
          Backs-ne start o.place' q.place' m m1 m' area.map_type l b o.ppn ppn (omega arith) o.backs
            (subst (λ type. Backs start q.place' m1 m' type b ppn) o.same_type back)
            (let f = first_frame in let first = ap (frame_of area') e in cc)
    ];
  }

none-MapsPages :
    (start : ℕ) (place : ℕ → Place) (l : ℕ) (area : MapArea) (t : PageTable) (m : Machine)
    → IsSound start place t.root_ppn m
    → MapsPages start place l 0 area t m area t m
none-MapsPages start place l area t m s = record {
  place' = place;
  sound = s;
  keeps = record { used_kept = λ r u. u; data_kept = λ r d. d; bytes_kept = λ at d. refl };
  cost = omega arith;
  same_range = refl;
  same_type = refl;
  same_perm = refl;
  adds = λ e. ([], sym (append-nil area.data_frames), refl);
  find_others = λ page out. refl;
  others = λ page hp out. refl;
  backed = λ page lo hi. absurd (omega arith);
  apart = λ a b lo ab hi. absurd (omega arith);
}

pub map_pages_lem :
    (start : ℕ) (place : ℕ → Place) (n l : ℕ) (area : MapArea) (t : PageTable) (m : Machine)
    → IsSound start place t.root_ppn m
    → l + n ≤ 2 ^ 27
    → area.map_perm < 2 ^ 8
    → 3 * n ≤ free m.allocator
    → ((page : ℕ) → l ≤ page → find page area.data_frames ≡ none)
    → MapsOrFails start place l n area t m (map_pages (count_from l n) area t m)
unfolding map_pages
map_pages_lem start place zero l area t m s h hf left empty = inl (
  (λ page lo hi. absurd (omega arith)),
  (area, t, m, refl, none-MapsPages start place l area t m s),
)
map_pages_lem start place (suc n) l area t m s h hf left empty =
    elim (map_one-MapsOne start place area t l m s (omega arith) hf (omega arith)
      (empty l (omega arith))) [
        | inr (mapped, failed) ↦ inr ((l, omega arith, omega arith, mapped), rw failed refl)
        | inl (unmapped, (area1, t1, m1, e, o)) ↦
            let back : (page : ℕ)
                → l + 1 ≤ page
                → page < l + 1 + n
                → lookup t1 page m1.mem ≡ lookup t page m.mem =
              λ page lo hi. Maps-ne t t1 l page _ m m1 o.maps (omega arith) (omega arith) in
            elim (map_pages_lem start o.place' n (l + 1) area1 t1 m1 o.sound (omega arith)
              (omega (arith, hf, o.same_perm)) (omega (arith, o.cost))
              (λ page lo. o.find_ne page (omega arith) ∙ empty page (omega arith))) [
                | inr ((page, lo, hi, mapped), failed) ↦ inr (
                  (page, omega arith, omega arith, λ e'. mapped (back page lo hi ∙ e')),
                  rw (e, failed) refl,
                )
                | inl (rest, (area', t', m', e', q)) ↦ inl (
                  (λ page lo hi. elim (ℕ_discrete page l) [
                    | yes same ↦ rw same unmapped
                    | no ne ↦
                        sym (back page (omega arith) (omega arith))
                        ∙ rest page (omega arith) (omega arith)
                  ]),
                  (
                    area',
                    t',
                    m',
                    rw (e, e') refl,
                    both start place l n area t m area1 t1 m1 o area' t' m' q (omega arith),
                  ),
                )
              ]
      ]
