-- ===== src/Kernel/MemorySet/Bare.antt =====
-- `new_bare` and `map_trampoline` of src/os/src/mm/memory_set.rs: the space that a copy starts from.
use project_r_core.Common.{
  ℕ, ◌+◌, ◌/◌, ◌%◌, ◌^◌, ◌≤◌, ◌<◌, ◌≡◌, refl, ◌≢◌, inl, inr, ◌∙◌, subst, arith, bit_or, none, some,
  [], ne→not-==,
}
use project_r_core.Kernel.Address.{
  floor, page_num_of_addr, aligned, page_offset, virt_addr_from, phys_addr_from,
}
use project_r_core.Kernel.Address.Fields.{phys_addr_from_mod, page_offset_mod}
use project_r_core.Kernel.Frames.{Machine}
use project_r_core.Kernel.Frames.Invariant.{IsUsed, free}
use project_r_core.Kernel.Pids.{trampoline}
use project_r_core.Kernel.PageTable.{PageTable, pte_new, flag_v, flag_r, flag_x}
use project_r_core.Kernel.PageTable.Tree.{Place}
use project_r_core.Kernel.PageTable.Walk.{lookup}
use project_r_core.Kernel.PageTable.Descend.{IsSound, IsData}
use project_r_core.Kernel.PageTable.Map.{MapsPage, map-MapsPage}
use project_r_core.Kernel.PageTable.Data.{data-IsTree, data-lookup}
use project_r_core.Kernel.PageTable.Fresh.{root_only, NewTable, new_table-NewTable}
use project_r_core.Kernel.MemorySet.{MemorySet, new_bare, map_trampoline}

-- The page of the trampoline.
abbrev pub trampoline_page : ℕ
trampoline_page = 0x7ffffff

abbrev pub trampoline_entry : ℕ → ℕ
trampoline_entry strampoline = pte_new (strampoline / 4096) (bit_or (bit_or flag_r flag_x) flag_v)

-- A bare space with the trampoline, beside the space `user`.
pub record Bare (start : ℕ) (parent_place : ℕ → Place) (user : MemorySet) (m : Machine)
    (strampoline : ℕ) (s : MemorySet) (m' : Machine) : Type 0 where
  pub place' : ℕ → Place
  pub child : IsSound start place' s.page_table.root_ppn m'
  pub parent : IsSound start parent_place user.page_table.root_ppn m'
  pub used_data : (r : ℕ) → IsUsed start m.allocator r → IsData start place' m' r
  pub used_bytes : (at : ℕ) → IsUsed start m.allocator (floor at) → m'.mem at ≡ m.mem at
  pub maps_trampoline :
      lookup s.page_table trampoline_page m'.mem ≡ some (trampoline_entry strampoline)
  pub maps_nothing : (page : ℕ) → page < trampoline_page → lookup s.page_table page m'.mem ≡ none
  pub same_parent :
      (page : ℕ)
      → page < 2 ^ 27
      → lookup user.page_table page m'.mem ≡ lookup user.page_table page m.mem
  pub cost : free m.allocator ≤ free m'.allocator + 3

trampoline_num : page_num_of_addr (virt_addr_from trampoline) ≡ some trampoline_page
unfolding page_num_of_addr aligned page_offset virt_addr_from floor
trampoline_num = refl

frame_num :
    (strampoline : ℕ)
    → strampoline < 2 ^ 56
    → strampoline % 4096 ≡ 0
    → page_num_of_addr (phys_addr_from strampoline) ≡ some (strampoline / 4096)
unfolding page_num_of_addr aligned floor
frame_num strampoline h k =
    let e : phys_addr_from strampoline ≡ strampoline =
      omega (arith, phys_addr_from_mod strampoline) in
    let e' : page_offset strampoline ≡ 0 = omega (arith, page_offset_mod strampoline) in
    rw (e, e') refl

bare_lem :
    (start : ℕ) (parent_place : ℕ → Place) (user : MemorySet) (m m1 m2 : Machine) (strampoline : ℕ)
    (t t2 : PageTable)
    → IsSound start parent_place user.page_table.root_ppn m
    → (nt : NewTable start parent_place user.page_table.root_ppn m t m1)
    → MapsPage start
        (root_only t.root_ppn)
        t
        trampoline_page
        (trampoline_entry strampoline)
        m1
        t2
        m2
    → Bare start parent_place user m strampoline (record { page_table = t2; areas = [] }) m2
bare_lem start parent_place user m m1 m2 strampoline t t2 parent nt mp = record {
  place' = mp.place';
  child = mp.sound;
  parent = record {
    tree =
        data-IsTree parent_place user.page_table.root_ppn m1.mem m2.mem nt.frame.sound.tree tables;
    valid = mp.sound.valid;
    owned = λ p ne. mp.keeps.used_kept p (nt.frame.sound.owned p ne);
  };
  used_data = λ r u. mp.keeps.data_kept r (nt.apart r u);
  used_bytes = λ at u.
      mp.keeps.bytes_kept at (nt.apart _ u)
      ∙ nt.frame.others at (λ e. nt.frame.unused (subst (IsUsed start m.allocator) e u));
  maps_trampoline = mp.maps trampoline_page (omega arith);
  maps_nothing = λ page hp.
      mp.maps page (omega arith)
      ∙ rw (ne→not-== page trampoline_page (omega arith)) (nt.empty page (omega arith));
  same_parent = λ page hp.
      data-lookup parent_place user.page_table.root_ppn m1.mem m2.mem nt.frame.sound.tree tables
        user.page_table page refl hp
      ∙ nt.frame.same user.page_table page refl hp;
  cost = omega (arith, mp.cost, nt.frame.cost);
}
  where
    tables : (at : ℕ) → parent_place (floor at) ≢ Place.outside → m2.mem at ≡ m1.mem at
    tables at ne = mp.keeps.bytes_kept at (nt.apart _ (parent.owned _ ne))

pub new_bare-Bare :
    (start : ℕ) (parent_place : ℕ → Place) (user : MemorySet) (m : Machine) (strampoline : ℕ)
    → IsSound start parent_place user.page_table.root_ppn m
    → strampoline < 2 ^ 56
    → strampoline % 4096 ≡ 0
    → 3 ≤ free m.allocator
    → (s : MemorySet) × (m1 : Machine) × (s2 : MemorySet) × (m2 : Machine) × (new_bare m
        ≡ some (s, m1))
      × (map_trampoline strampoline s m1 ≡ some (s2, m2))
      × (s2.areas ≡ [])
      × Bare start parent_place user m strampoline s2 m2
unfolding new_bare map_trampoline
new_bare-Bare start parent_place user m strampoline parent h k left =
    let (t, m1, e, nt) =
      new_table-NewTable start parent_place user.page_table.root_ppn m parent (omega arith) in
    let flags : bit_or flag_r flag_x < 2 ^ 8 = omega arith in
    elim (map-MapsPage start (root_only t.root_ppn) t trampoline_page (strampoline / 4096)
      (bit_or flag_r flag_x) m1 nt.sound (omega arith) (omega arith) flags
      (omega (arith, nt.frame.cost))) [
        | inr (mapped, failed) ↦ absurd (mapped (nt.empty trampoline_page (omega arith)))
        | inl (unmapped, (t2, m2, e2, mp)) ↦ (
          record { page_table = t; areas = [] },
          m1,
          record { page_table = t2; areas = [] },
          m2,
          rw e refl,
          rw (trampoline_num, frame_num strampoline h k, e2) refl,
          refl,
          bare_lem start parent_place user m m1 m2 strampoline t t2 parent nt mp,
        )
      ]
