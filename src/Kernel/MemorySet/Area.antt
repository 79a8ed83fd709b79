-- ===== src/Kernel/MemorySet/Area.antt =====
-- One round of `from_existed_user` of src/os/src/mm/memory_set.rs: an area is mapped in the new space, and
-- its pages are copied.
use project_r_core.Common.{
  ℕ, ◌+◌, ◌-◌, ◌*◌, ◌^◌, ◌≤◌, ◌<◌, ◌≡◌, refl, ◌≢◌, inl, inr, ◌∙◌, ap, sym, subst, arith, none, some,
  List, [], ◌∷◌, ◌++◌,
}
use project_r_core.Common.Bytes.{Bytes}
use project_r_core.Kernel.Address.{floor}
use project_r_core.Kernel.Address.Range.{count_from}
use project_r_core.Kernel.Frames.{Machine}
use project_r_core.Kernel.Frames.Invariant.{IsUsed}
use project_r_core.Kernel.PageTable.{PageTable}
use project_r_core.Kernel.PageTable.Tree.{Place}
use project_r_core.Kernel.PageTable.Walk.{lookup}
use project_r_core.Kernel.PageTable.Descend.{IsData}
use project_r_core.Kernel.PageTable.Data.{data-IsTree, data-lookup, lookup-translate}
use project_r_core.Kernel.MapArea.{MapArea, MapType, from_another, pages}
use project_r_core.Kernel.MapArea.Frames.{frame_of}
use project_r_core.Kernel.MapArea.One.{Backs}
use project_r_core.Kernel.MapArea.Pages.{MapsPages, entry_of}
use project_r_core.Kernel.MapArea.Map.{map-MapsOrFails, pages_lem}
use project_r_core.Kernel.MemorySet.{MemorySet, push, copy_pages}
use project_r_core.Kernel.MemorySet.Pages.{Agrees, LeadsTo, copy_pages_lem, in_frame}
use project_r_core.Kernel.MemorySet.Copyable.{Copyable, Copies, or_zero, entry_ppn, used_narrow}

module _ (start : ℕ) (parent_place place : ℕ → Place) (user s : MemorySet) (area : MapArea)
    (m : Machine) (c : Copyable start parent_place place user s area m) (area1 : MapArea)
    (t1 : PageTable) (m1 : Machine)
    (q : MapsPages start place area.vpn_range.l
      (area.vpn_range.r - area.vpn_range.l)
      (from_another area)
      s.page_table
      m
      area1
      t1
      m1) where
  abbrev l : ℕ
  l = area.vpn_range.l

  abbrev n : ℕ
  n = area.vpn_range.r - area.vpn_range.l

  abbrev s1 : MemorySet
  s1 = record { page_table = t1; areas = s.areas ++ (area1 ∷ []) }

  abbrev src : ℕ → ℕ
  src page = or_zero (frame_of area page)

  abbrev dst : ℕ → ℕ
  dst page = or_zero (frame_of area1 page)

  -- The frame of a page in the new space.
  target :
      (page : ℕ)
      → l ≤ page
      → page < l + n
      → (frame_of area1 page ≡ some (dst page))
        × (lookup t1 page m1.mem ≡ some (entry_of area (dst page)))
        × ¬ IsUsed start m.allocator (dst page)
        × IsData start q.place' m1 (dst page)
  unfolding from_another
  target page lo hi =
      let (ppn, framed, found, back) = q.backed page lo hi in
      let e : dst page ≡ ppn = ap or_zero framed in
      let (unused, d, zeros) : Backs start q.place' m m1 MapType.framed page ppn =
        subst (λ type. Backs start q.place' m m1 type page ppn) c.framed back in
      rw e (framed, found, unused, d)

  -- The frame of a page in the old space.
  source :
      (page : ℕ)
      → l ≤ page
      → page < l + n
      → (frame_of area page ≡ some (src page))
        × (lookup user.page_table page m.mem ≡ some (entry_of area (src page)))
        × IsData start place m (src page)
  source page lo hi =
      let h = c.ordered in
      let (ppn, framed, found, d) = c.mapped page lo (omega arith) in
      let e : src page ≡ ppn = ap or_zero framed in rw e (framed, found, d)

  -- The tables of both spaces are as they were as long as only new frames change.
  parent_tables :
      (mem' : Bytes)
      → Agrees dst l n m1.mem mem'
      → (at : ℕ) → parent_place (floor at) ≢ Place.outside
      → mem' at ≡ m.mem at
  parent_tables mem' same at ne =
      same at (λ page lo hi e.
        (target page lo hi).2 (subst (IsUsed start m.allocator) e (c.tables_apart _ ne).0))
      ∙ q.keeps.bytes_kept at (c.tables_apart _ ne)

  child_tables :
      (mem' : Bytes)
      → Agrees dst l n m1.mem mem'
      → (at : ℕ) → q.place' (floor at) ≢ Place.outside
      → mem' at ≡ m1.mem at
  child_tables mem' same at ne =
      same at (λ page lo hi e. ne (ap q.place' e ∙ (target page lo hi).3.1))

  pub leads :
      (mem' : Bytes)
      → Agrees dst l n m1.mem mem'
      → (page : ℕ) → l ≤ page
      → page < l + n
      → LeadsTo user s1 src dst mem' page
  leads mem' same page lo hi =
      let h = c.ordered in
      let hp : page < 2 ^ 27 = omega (arith, c.bounded) in
      let (owned, found, d) = source page lo hi in
      let (framed, found', unused, d') = target page lo hi in
      (
        entry_of area (src page),
        entry_of area (dst page),
        lookup-translate user.page_table page mem' _ (
            data-lookup parent_place user.page_table.root_ppn m.mem mem' c.parent.tree
              (parent_tables mem' same) user.page_table page refl hp
            ∙ found),
        entry_ppn area (src page) c.narrow (used_narrow start m _ c.child.valid d.0),
        lookup-translate t1 page mem' _ (
            data-lookup q.place' t1.root_ppn m1.mem mem' q.sound.tree (child_tables mem' same) t1
              page refl hp
            ∙ found'),
        entry_ppn area (dst page) c.narrow (used_narrow start m1 _ q.sound.valid d'.0),
      )

  pub dst_distinct : (a b : ℕ) → l ≤ a → a < b → b < l + n → dst a ≢ dst b
  dst_distinct a b lo ab hi e =
      q.apart a b lo ab hi
        ((target a lo (omega arith)).0 ∙ ap some e ∙ sym (target b (omega arith) hi).0)

  pub src_narrow : (page : ℕ) → l ≤ page → page < l + n → src page < 2 ^ 44
  src_narrow page lo hi = used_narrow start m _ c.child.valid (source page lo hi).2.0

  pub src_apart : (a b : ℕ) → l ≤ a → a < l + n → l ≤ b → b < l + n → src a ≢ dst b
  src_apart a b lo hi lo' hi' e =
      (target b lo' hi').2 (subst (IsUsed start m.allocator) e (source a lo hi).2.0)

  pub copied_area :
      (mem' : Bytes)
      → Agrees dst l n m1.mem mem'
      → ((page o : ℕ)
          → l ≤ page
          → page < l + n
          → o < 4096
          → mem' (dst page * 4096 + o) ≡ m1.mem (src page * 4096 + o))
      → Copies start parent_place place user s area m s1 (record m1 { mem = mem' })
  copied_area mem' same bytes =
      let h = c.ordered in
      record {
        place' = q.place';
        child = record {
          tree = data-IsTree q.place' t1.root_ppn m1.mem mem' q.sound.tree (child_tables mem' same);
          valid = q.sound.valid;
          owned = q.sound.owned;
        };
        parent = record {
          tree =
              data-IsTree parent_place user.page_table.root_ppn m.mem mem' c.parent.tree
                (parent_tables mem' same);
          valid = q.sound.valid;
          owned = λ p ne. q.keeps.used_kept p (c.parent.owned p ne);
        };
        keeps = record {
          used_kept = q.keeps.used_kept;
          data_kept = q.keeps.data_kept;
          bytes_kept = λ at d.
              same at
                (λ page lo hi e. (target page lo hi).2 (subst (IsUsed start m.allocator) e d.0))
              ∙ q.keeps.bytes_kept at d;
        };
        cost = q.cost;
        others = λ page hp out.
            data-lookup q.place' t1.root_ppn m1.mem mem' q.sound.tree (child_tables mem' same) t1
              page refl hp
            ∙ q.others page hp (elim out [ inl below ↦ inl below | inr above ↦ inr (omega arith) ]);
        same_parent = λ page hp.
            data-lookup parent_place user.page_table.root_ppn m.mem mem' c.parent.tree
              (parent_tables mem' same) user.page_table page refl hp;
        copied = λ page lo hi.
            let hi' : page < l + n = omega arith in
            let (framed, found', unused, d') = target page lo hi' in
            let (owned, found, d) = source page lo hi' in
            (
              src page,
              dst page,
              owned,
              data-lookup q.place' t1.root_ppn m1.mem mem' q.sound.tree (child_tables mem' same) t1
                    page refl (omega (arith, c.bounded))
                  ∙ found',
              unused,
              d',
              λ o ho. bytes page o lo hi' ho ∙ kept (src page) o ho d,
            );
      }
    where
      kept :
          (p o : ℕ)
          → o < 4096
          → IsData start place m p
          → m1.mem (p * 4096 + o) ≡ m.mem (p * 4096 + o)
      kept p o ho d =
          q.keeps.bytes_kept (p * 4096 + o) (subst (IsData start place m) (sym (in_frame p o ho)) d)

-- A round maps the area and copies its pages.
pub round-Copies :
    (start : ℕ) (parent_place place : ℕ → Place) (user s : MemorySet) (area : MapArea) (m : Machine)
    → Copyable start parent_place place user s area m
    → (s1 : MemorySet) × (m1 : Machine) × (vpns : List ℕ) × (m' : Machine) × (push s
          (from_another area)
          none
          m
        ≡ some (s1, m1))
      × (pages area.vpn_range ≡ some vpns)
      × (copy_pages user s1 vpns m1 ≡ some m')
      × Copies start parent_place place user s area m s1 m'
unfolding push from_another
round-Copies start parent_place place user s area m c =
    let l = area.vpn_range.l in
    let n = area.vpn_range.r - l in
    let h = c.ordered in
    elim (map-MapsOrFails start place (from_another area) s.page_table m c.child refl c.ordered
      c.bounded c.narrow c.enough) [
        | inr ((page, lo, hi, mapped), failed) ↦ absurd (mapped (c.unmapped page lo (omega arith)))
        | inl (unmapped, (area1, t1, m1, e, q)) ↦
            let s1 : MemorySet = record { page_table = t1; areas = s.areas ++ (area1 ∷ []) } in
            let (mem', done, agrees, bytes) =
              copy_pages_lem user s1 _ _ n l m1
                (leads start parent_place place user s area m c area1 t1 m1 q)
                (dst_distinct start parent_place place user s area m c area1 t1 m1 q)
                (src_apart start parent_place place user s area m c area1 t1 m1 q)
                (src_narrow start parent_place place user s area m c area1 t1 m1 q) in
            (
              s1,
              m1,
              count_from l n,
              record m1 { mem = mem' },
              rw e refl,
              pages_lem area.vpn_range c.ordered c.bounded,
              done,
              copied_area start parent_place place user s area m c area1 t1 m1 q mem' agrees bytes,
            )
      ]
