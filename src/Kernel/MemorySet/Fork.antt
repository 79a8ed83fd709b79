-- ===== src/Kernel/MemorySet/Fork.antt =====
-- `from_existed_user` of src/os/src/mm/memory_set.rs: the address space of a forked process.
use project_r_core.Common.{
  ℕ, ◌+◌, ◌*◌, ◌%◌, ◌^◌, ◌≤◌, ◌<◌, ◌≡◌, inr, ◌∙◌, sym, subst, arith, none, some, All, All-map,
  All-map_both,
}
use project_r_core.Kernel.Address.{floor}
use project_r_core.Kernel.Frames.{Machine}
use project_r_core.Kernel.Frames.Invariant.{IsUsed, free}
use project_r_core.Kernel.PageTable.Tree.{Place}
use project_r_core.Kernel.PageTable.Walk.{lookup}
use project_r_core.Kernel.PageTable.Descend.{IsSound}
use project_r_core.Kernel.MapArea.{MapArea}
use project_r_core.Kernel.MemorySet.{MemorySet, from_existed_user}
use project_r_core.Kernel.MemorySet.Pages.{in_frame}
use project_r_core.Kernel.MemorySet.Areas.{IsMapped, IsAway, IsDisjoint, size, IsCopied, CopiesAll}
use project_r_core.Kernel.MemorySet.Copy.{copy_areas_lem}
use project_r_core.Kernel.MemorySet.Areas.{IsMapped-later}
use project_r_core.Kernel.MemorySet.Bare.{trampoline_page, trampoline_entry, Bare, new_bare-Bare}

-- The space of a process: its areas lie below the trampoline, apart from each other, and are mapped to
-- their frames.
pub record IsUserSpace (start : ℕ) (place : ℕ → Place) (user : MemorySet) (m : Machine)
    : Type 0 where
  pub sound : IsSound start place user.page_table.root_ppn m
  pub mapped : All (IsMapped start place user m) user.areas
  pub disjoint : IsDisjoint user.areas

-- The space `s` as a copy of `user`, between the states `m` and `m'`.
pub record Forked (start : ℕ) (parent_place : ℕ → Place) (strampoline : ℕ) (user : MemorySet)
    (m : Machine) (s : MemorySet) (m' : Machine) : Type 0 where
  pub place' : ℕ → Place
  pub child : IsSound start place' s.page_table.root_ppn m'
  pub parent : IsUserSpace start parent_place user m'
  pub used_bytes : (at : ℕ) → IsUsed start m.allocator (floor at) → m'.mem at ≡ m.mem at
  pub copied : All (IsCopied start place' m s m') user.areas
  pub maps_trampoline :
      lookup s.page_table trampoline_page m'.mem ≡ some (trampoline_entry strampoline)
  pub maps_nothing_else :
      (page : ℕ)
      → page < trampoline_page
      → All (IsAway page) user.areas
      → lookup s.page_table page m'.mem ≡ none

-- What is mapped for the user is mapped in the bare space's view of the memory too.
IsMapped-Bare :
    (start : ℕ) (parent_place : ℕ → Place) (strampoline : ℕ) (user s : MemorySet) (m m2 : Machine)
    (b : Bare start parent_place user m strampoline s m2) (area : MapArea)
    → IsMapped start parent_place user m area
    → IsMapped start b.place' user m2 area
IsMapped-Bare start parent_place strampoline user s m m2 b area h = record {
  framed = h.framed;
  ordered = h.ordered;
  bounded = h.bounded;
  narrow = h.narrow;
  mapped = λ page lo hi.
      let (ppn, framed, found, d) = h.mapped page lo hi in
      (ppn, framed, b.same_parent page (omega (arith, h.bounded)) ∙ found, b.used_data ppn d.0);
}

-- A copy of what is there after the bare space was made is one of what was there before.
IsCopied-Bare :
    (start : ℕ) (parent_place place' : ℕ → Place) (strampoline : ℕ) (user s s' : MemorySet)
    (m m2 m' : Machine) (b : Bare start parent_place user m strampoline s m2) (area : MapArea)
    → IsMapped start parent_place user m area
    → IsCopied start place' m2 s' m' area
    → IsCopied start place' m s' m' area
IsCopied-Bare start parent_place place' strampoline user s s' m m2 m' b area h copied page lo hi =
    let (p, q, owned, found, unused, d, bytes) = copied page lo hi in
    let (ppn, framed, found', data_p) = h.mapped page lo hi in
    let same : ppn ≡ p = cc in
    (
      p,
      q,
      owned,
      found,
      (λ u. unused (b.used_data q u).0),
      d,
      λ o ho.
          bytes o ho
          ∙ b.used_bytes (p * 4096 + o)
              (subst (IsUsed start m.allocator) (sym (in_frame p o ho ∙ sym same)) data_p.0),
    )

forked_lem :
    (start : ℕ) (parent_place : ℕ → Place) (strampoline : ℕ) (user s s' : MemorySet)
    (m m2 m' : Machine)
    → IsUserSpace start parent_place user m
    → (b : Bare start parent_place user m strampoline s m2)
    → CopiesAll start parent_place b.place' user s user.areas m2 s' m'
    → Forked start parent_place strampoline user m s' m'
forked_lem start parent_place strampoline user s s' m m2 m' u b c = record {
  place' = c.place';
  child = c.child;
  parent = record {
    sound = c.parent;
    mapped =
        All-map
          (λ area.
            IsMapped-later start parent_place parent_place user m m' area
              (record {
                used_kept = λ r used. kept r used;
                data_kept = λ r d. (kept r d.0, d.1);
                bytes_kept = λ at d. bytes at d.0;
              })
              (λ page hp. c.same_parent page hp ∙ b.same_parent page hp))
          user.areas u.mapped;
    disjoint = u.disjoint;
  };
  used_bytes = bytes;
  copied =
      All-map_both (IsCopied-Bare start parent_place c.place' strampoline user s s' m m2 m' b)
        user.areas u.mapped c.copied;
  maps_trampoline =
      c.others trampoline_page (omega arith)
        (All-map (λ area h. inr (omega (arith, h.bounded))) user.areas u.mapped)
      ∙ b.maps_trampoline;
  maps_nothing_else = λ page hp away. c.others page (omega arith) away ∙ b.maps_nothing page hp;
}
  where
    kept : (r : ℕ) → IsUsed start m.allocator r → IsUsed start m'.allocator r
    kept r used = c.keeps.used_kept r (b.used_data r used).0

    bytes : (at : ℕ) → IsUsed start m.allocator (floor at) → m'.mem at ≡ m.mem at
    bytes at used = c.keeps.bytes_kept at (b.used_data _ used) ∙ b.used_bytes at used

-- With three frames for each page of the process and three more, `from_existed_user` succeeds. Each page
-- of each area has in the new space a frame that was not in use, with the flags of the area and the bytes
-- of the page of the old space; the last page is the trampoline, and no other page is mapped. No byte of a
-- frame in use changes, so that the old space is as it was, and the trees of tables of both are sound.
pub from_existed_user-Forked :
    (start : ℕ) (parent_place : ℕ → Place) (strampoline : ℕ) (user : MemorySet) (m : Machine)
    → IsUserSpace start parent_place user m
    → strampoline < 2 ^ 56
    → strampoline % 4096 ≡ 0
    → 3 * size user.areas + 3 ≤ free m.allocator
    → (s : MemorySet) × (m' : Machine) × (from_existed_user strampoline user m ≡ some (s, m'))
      × Forked start parent_place strampoline user m s m'
unfolding from_existed_user
from_existed_user-Forked start parent_place strampoline user m u h k left =
    let (s1, m1, s2, m2, made, mapped, no_areas, b) =
      new_bare-Bare start parent_place user m strampoline u.sound h k (omega arith) in
    let (s', m', e, c) =
      copy_areas_lem start parent_place b.place' user user.areas s2 m2 b.parent b.child
        (λ r ne. b.used_data r (u.sound.owned r ne))
        (All-map (IsMapped-Bare start parent_place strampoline user s2 m m2 b) user.areas u.mapped)
        u.disjoint
        (All-map (λ area h page lo hi. b.maps_nothing page (omega (arith, h.bounded))) user.areas
          u.mapped)
        (omega (arith, b.cost)) in
    (
      s',
      m',
      rw (made, mapped) e,
      forked_lem start parent_place strampoline user s2 s' m m2 m' u b c,
    )
