-- ===== src/Kernel/MemorySet/Copy.antt =====
-- `copy_areas` of src/os/src/mm/memory_set.rs: every area is copied to a frame of its own for each page.
use project_r_core.Common.{
  ℕ, ◌+◌, ◌*◌, ◌^◌, ◌≤◌, ◌<◌, ◌≡◌, refl, ◌≢◌, ◌⊎◌, ◌∙◌, sym, subst, arith, some, List, [], ◌∷◌, All,
  All-map, All-map_both,
}
use project_r_core.Kernel.Frames.{Machine}
use project_r_core.Kernel.Frames.Invariant.{free}
use project_r_core.Kernel.PageTable.Tree.{Place}
use project_r_core.Kernel.PageTable.Walk.{lookup}
use project_r_core.Kernel.PageTable.Descend.{IsSound, IsData, Keeps, Keeps-trans}
use project_r_core.Kernel.MapArea.{MapArea}
use project_r_core.Kernel.MemorySet.{MemorySet, copy_areas}
use project_r_core.Kernel.MemorySet.Pages.{in_frame}
use project_r_core.Kernel.MemorySet.Copyable.{Copyable, Copies}
use project_r_core.Kernel.MemorySet.Area.{round-Copies}
use project_r_core.Kernel.MemorySet.Areas.{
  IsMapped, IsDisjoint, size, IsUnmapped, IsCopied, CopiesAll, IsMapped-later, all-IsAway,
  IsUnmapped-later,
}

bytes_later :
    (start : ℕ) (place place' : ℕ → Place) (m m' : Machine) (p o : ℕ)
    → Keeps start place place' m m'
    → IsData start place m p
    → o < 4096
    → m'.mem (p * 4096 + o) ≡ m.mem (p * 4096 + o)
bytes_later start place place' m m' p o k d ho =
    k.bytes_kept (p * 4096 + o) (subst (IsData start place m) (sym (in_frame p o ho)) d)

-- A copy stays a copy while other areas are copied.
head-IsCopied :
    (start : ℕ) (place1 place' : ℕ → Place) (s1 s' : MemorySet) (m m1 m' : Machine) (a : MapArea)
    → a.vpn_range.r ≤ 2 ^ 27
    → Keeps start place1 place' m1 m'
    → ((page : ℕ)
        → a.vpn_range.l ≤ page
        → page < a.vpn_range.r
        → lookup s'.page_table page m'.mem ≡ lookup s1.page_table page m1.mem)
    → IsCopied start place1 m s1 m1 a
    → IsCopied start place' m s' m' a
head-IsCopied start place1 place' s1 s' m m1 m' a ha k same copied page lo hi =
    let (p, q, owned, found, unused, d, bytes) = copied page lo hi in
    (
      p,
      q,
      owned,
      same page lo hi ∙ found,
      unused,
      k.data_kept q d,
      λ o ho. bytes_later start place1 place' m1 m' q o k d ho ∙ bytes o ho,
    )

-- A copy of what is there after another copy is one of what was there before.
tail-IsCopied :
    (start : ℕ) (place place1 place' : ℕ → Place) (user s' : MemorySet) (m m1 m' : Machine)
    (b : MapArea)
    → Keeps start place place1 m m1
    → IsMapped start place user m b
    → IsCopied start place' m1 s' m' b
    → IsCopied start place' m s' m' b
tail-IsCopied start place place1 place' user s' m m1 m' b k mapped copied page lo hi =
    let (p, q, owned, found, unused, d, bytes) = copied page lo hi in
    let (ppn, framed, found', data_p) = mapped.mapped page lo hi in
    let same : ppn ≡ p = cc in
    (
      p,
      q,
      owned,
      found,
      (λ u. unused (k.used_kept q u)),
      d,
      λ o ho.
          bytes o ho
          ∙ bytes_later start place place1 m m1 p o k (subst (IsData start place m) same data_p) ho,
    )

join-CopiesAll :
    (start : ℕ) (parent_place place : ℕ → Place) (user s s1 s' : MemorySet) (a : MapArea)
    (areas : List MapArea) (m m1 m' : Machine)
    → IsMapped start place user m a
    → All (IsMapped start place user m) areas
    → All (λ b. (b.vpn_range.r ≤ a.vpn_range.l) ⊎ (a.vpn_range.r ≤ b.vpn_range.l)) areas
    → (c : Copies start parent_place place user s a m s1 m1)
    → CopiesAll start parent_place c.place' user s1 areas m1 s' m'
    → CopiesAll start parent_place place user s (a ∷ areas) m s' m'
join-CopiesAll start parent_place place user s s1 s' a areas m m1 m' mapped all apart c r = record {
  place' = r.place';
  child = r.child;
  parent = r.parent;
  keeps = Keeps-trans c.keeps r.keeps;
  others = λ page hp away. r.others page hp away.1 ∙ c.others page hp away.0;
  same_parent = λ page hp. r.same_parent page hp ∙ c.same_parent page hp;
  copied = (
    head-IsCopied start c.place' r.place' s1 s' m m1 m' a (omega (arith, mapped.bounded)) r.keeps
        (λ page lo hi.
          r.others page (omega (arith, mapped.bounded)) (all-IsAway a areas page lo hi apart))
        c.copied,
    All-map_both (λ b. tail-IsCopied start place c.place' r.place' user s' m m1 m' b c.keeps) areas
        all r.copied,
  );
}

-- With three frames for each page, areas that are mapped in `user` and not in `s` are copied.
pub copy_areas_lem :
    (start : ℕ) (parent_place place : ℕ → Place) (user : MemorySet) (areas : List MapArea)
    (s : MemorySet) (m : Machine)
    → IsSound start parent_place user.page_table.root_ppn m
    → IsSound start place s.page_table.root_ppn m
    → ((r : ℕ) → parent_place r ≢ Place.outside → IsData start place m r)
    → All (IsMapped start place user m) areas
    → IsDisjoint areas
    → All (IsUnmapped s m) areas
    → 3 * size areas ≤ free m.allocator
    → (s' : MemorySet) × (m' : Machine) × (copy_areas user areas s m ≡ some (s', m'))
      × CopiesAll start parent_place place user s areas m s' m'
unfolding copy_areas
copy_areas_lem start parent_place place user [] s m parent child tables all apart free_pages left =
    (
      s,
      m,
      refl,
      record {
        place' = place;
        child = child;
        parent = parent;
        keeps = record { used_kept = λ r u. u; data_kept = λ r d. d; bytes_kept = λ at d. refl };
        others = λ page hp away. refl;
        same_parent = λ page hp. refl;
        copied = tt;
      },
    )
copy_areas_lem start parent_place place user (a ∷ areas) s m parent child tables all apart
      free_pages left =
    let mapped = all.0 in
    let c : Copyable start parent_place place user s a m = record {
      parent = parent;
      child = child;
      tables_apart = tables;
      framed = mapped.framed;
      ordered = mapped.ordered;
      bounded = omega (arith, mapped.bounded);
      narrow = mapped.narrow;
      mapped = mapped.mapped;
      unmapped = free_pages.0;
      enough = omega arith;
    } in
    let (s1, m1, vpns, m2, pushed, visits, done, first) =
      round-Copies start parent_place place user s a m c in
    let (s', m', e, rest) =
      copy_areas_lem start parent_place first.place' user areas s1 m2 first.parent first.child
        (λ r ne. first.keeps.data_kept r (tables r ne))
        (All-map
          (λ b. IsMapped-later start place first.place' user m m2 b first.keeps first.same_parent)
          areas all.1)
        apart.1
        (All-map_both (λ b h. h) areas
          (All-map_both
            (λ b h.
              IsUnmapped-later s s1 m m2 a b (omega (arith, mapped.bounded)) h.bounded first.others)
            areas all.1 apart.0)
          free_pages.1)
        (omega (arith, first.cost)) in
    (
      s',
      m',
      rw (pushed, visits, done) e,
      join-CopiesAll start parent_place place user s s1 s' a areas m m2 m' mapped all.1 apart.0
          first rest,
    )
